-- ===== src/Webhooks/Tests.antt =====
-- The targets of webhooks at concrete URLs.
use hexagonal.Base.{
  ◌≡◌, refl, String, true, false, ◌==◌, none, some, [], ◌∷◌, any, arith, ok, err, if◌then◌else◌,
}
use hexagonal.Webhooks.Target.{
  WebhookTargetPolicyOptions, Url, Runtime, is_local_hostname, normalize_host, after_prefix,
  ends_with, is_private_start, is_private_ipv4, is_private_ipv6, is_private_ip_address,
  assert_webhook_target_allowed,
}
use hexagonal.Webhooks.Client.{DeliverWebhookCommand, Sent, deliver}
use hexagonal.Webhooks.Blocks.{address, private_blocks, is_in, sent_outside_blocks}

abbrev url_of : (hostname href : String) → Url
url_of hostname href = record {
  protocol = "https:";
  hostname = hostname;
  username = "";
  password = "";
  href = href;
}

-- The URL parser writes the last four octets of an address of version 6 as two hexadecimal numbers.
abbrev runtime : Runtime
runtime = record {
  parse = λ raw_url.
      if raw_url == "https://8.8.4.4"
      then ok (url_of "8.8.4.4" "https://8.8.4.4/")
      else if raw_url == "https://[::ffff:127.0.0.1]"
      then ok (url_of "[::ffff:7f00:1]" "https://[::ffff:7f00:1]/")
      else err "Invalid URL";
  trim = λ text. text;
  to_lower_case = λ text. text;
  without_brackets = λ text. if text == "[::ffff:7f00:1]" then "::ffff:7f00:1" else text;
  split = λ separator text. if text == "8.8.4.4" then "8" ∷ "8" ∷ "4" ∷ "4" ∷ [] else text ∷ [];
  number = λ part. if part == "8" then some 8 else if part == "4" then some 4 else none;
  is_ip = λ text. if text == "8.8.4.4" then 4 else if text == "::ffff:7f00:1" then 6 else 0;
}

abbrev options : WebhookTargetPolicyOptions
options = record { require_https = true; allow_private_targets = false }

abbrev command : DeliverWebhookCommand
command = record { url = "https://8.8.4.4"; secret = "s"; id = "e"; type = "t"; body = "{}" }

abbrev sent : Sent
sent = record {
  target_url = "https://8.8.4.4/";
  webhook_id = "e";
  webhook_event = "t";
  webhook_timestamp = "9";
  webhook_signature = "t=9,v1=h";
  body = "{}";
}

sent_outside_blocks_example :
    (sent.target_url ≡ (url_of "8.8.4.4" "https://8.8.4.4/").href)
    × (any (is_in (address 8 8 4 4)) private_blocks ≡ false)
unfolding deliver assert_webhook_target_allowed normalize_host is_local_hostname ends_with
    is_private_ip_address is_private_ipv4 is_private_start
sent_outside_blocks_example =
    sent_outside_blocks runtime options (λ secret text. "h") (λ status. "200") "9" (ok 200) command
      sent refl refl (url_of "8.8.4.4" "https://8.8.4.4/") refl 8 8 4 4 refl refl (omega arith)
      (omega arith) (omega arith)

-- The loopback address in an address of version 6 passes the policy.
mapped_loopback :
    assert_webhook_target_allowed runtime "https://[::ffff:127.0.0.1]" options
    ≡ ok (url_of "[::ffff:7f00:1]" "https://[::ffff:7f00:1]/")
unfolding assert_webhook_target_allowed normalize_host is_local_hostname ends_with
    is_private_ip_address is_private_ipv4 is_private_ipv6 after_prefix is_private_start
mapped_loopback = refl

-- ===== src/Webhooks/Blocks.antt =====
-- The blocks of addresses that src/modules/webhooks/domain/webhook-target-policy.ts keeps webhooks away from.
use hexagonal.Base.{
  ℕ, ◌+◌, ◌*◌, ◌≡◌, ◌<◌, refl, sym, ap, ◌∙◌, inl, inr, String, Bool, true, false, ◌&&◌, ◌||◌, leb,
  ltb, eqb, some, List, [], ◌∷◌, map, any, Result, ok, arith, Bool-cases, Result-cases,
}
use hexagonal.Webhooks.Target.{
  WebhookTargetPolicyOptions, Url, Runtime, is_local_hostname, is_private_start, is_private_octets,
  normalize_host, is_private_ipv4, is_private_ip_address, assert_webhook_target_allowed,
}
use hexagonal.Webhooks.Client.{DeliverWebhookCommand, Sent, deliver}

-- An address of 32 bits.
abbrev pub address : (first second third fourth : ℕ) → ℕ
address first second third fourth = first * 16777216 + second * 65536 + third * 256 + fourth

-- The first address of a block, and how many it has.
pub record Block : Type 0 where
  pub start : ℕ
  pub size : ℕ

abbrev pub is_in : (address : ℕ) → Block → Bool
is_in address block = leb block.start address && ltb address (block.start + block.size)

-- `0.0.0.0/8`, `10.0.0.0/8`, `127.0.0.0/8`, `100.64.0.0/10`, `169.254.0.0/16`, `172.16.0.0/12`,
-- `192.168.0.0/16` and `198.18.0.0/15`.
abbrev pub private_blocks : List Block
private_blocks =
    record { start = 0; size = 16777216 }
    ∷ record { start = 167772160; size = 16777216 }
    ∷ record { start = 2130706432; size = 16777216 }
    ∷ record { start = 1681915904; size = 4194304 }
    ∷ record { start = 2851995648; size = 65536 }
    ∷ record { start = 2886729728; size = 1048576 }
    ∷ record { start = 3232235520; size = 65536 }
    ∷ record { start = 3323068416; size = 131072 }
    ∷ []

or_same : {p q r s : Bool} → p ≡ q → r ≡ s → p || r ≡ q || s
or_same e f = ground arith

or_nested :
    (p q r s t u v w : Bool)
    → p || q || r || s || t || u || v || w
      ≡ p || (q || (r || (s || (t || (u || (v || (w || false)))))))
or_nested true q r s t u v w = refl
or_nested false true r s t u v w = refl
or_nested false false true s t u v w = refl
or_nested false false false true t u v w = refl
or_nested false false false false true u v w = refl
or_nested false false false false false true v w = refl
or_nested false false false false false false true w = refl
or_nested false false false false false false false true = refl
or_nested false false false false false false false false = refl

or_apart : (p q : Bool) → p || q ≡ false → (p ≡ false) × (q ≡ false)
or_apart false false h = (refl, refl)
or_apart false true h = absurd (cc)
or_apart true q h = absurd (cc)

module _ (a b c d : ℕ) (b_lt : b < 256) (c_lt : c < 256) (d_lt : d < 256) where
  abbrev within : (start size : ℕ) → Bool
  within start size = is_in (address a b c d) (record { start = start; size = size })

  in_first :
      (n : ℕ) → eqb a n ≡ is_in (address a b c d) (record { start = n * 16777216; size = 16777216 })
  in_first n = ground arith

  in_second :
      (n lo m : ℕ)
      → lo + m < 256
      → eqb a n && leb lo b && leb b (lo + m)
        ≡ is_in
            (address a b c d)
            (record { start = n * 16777216 + lo * 65536; size = (m + 1) * 65536 })
  in_second n lo m small = elim (Bool-cases (eqb a n)) [
    | inl same ↦ ground arith
    | inr other ↦ ground arith
  ]

  in_one :
      (n m : ℕ)
      → m < 256
      → eqb a n && eqb b m
        ≡ is_in (address a b c d) (record { start = n * 16777216 + m * 65536; size = 65536 })
  in_one n m small = ground arith

  in_two :
      (n m : ℕ)
      → m + 1 < 256
      → eqb a n && (eqb b m || eqb b (m + 1))
        ≡ is_in (address a b c d) (record { start = n * 16777216 + m * 65536; size = 131072 })
  in_two n m small = ground arith

  -- The tests on the first two octets find the addresses of the blocks, whatever the first octet is.
  pub is_private_start-private_blocks :
      is_private_start a b ≡ any (is_in (address a b c d)) private_blocks
  unfolding is_private_start
  is_private_start-private_blocks =
      or_same
        (or_same
          (or_same
            (or_same
              (or_same (or_same (or_same (in_first 0) (in_first 10)) (in_first 127))
                (in_second 100 64 63 (omega arith)))
              (in_one 169 254 (omega arith)))
            (in_second 172 16 15 (omega arith)))
          (in_one 192 168 (omega arith)))
        (in_two 198 18 (omega arith))
      ∙ or_nested (within 0 16777216) (within 167772160 16777216) (within 2130706432 16777216)
          (within 1681915904 4194304) (within 2851995648 65536) (within 2886729728 1048576)
          (within 3232235520 65536) (within 3323068416 131072)

module _ (runtime : Runtime) (options : WebhookTargetPolicyOptions) where
  -- What an allowed URL has passed.
  allowed_host :
      (raw_url : String) (url : Url)
      → assert_webhook_target_allowed runtime raw_url options ≡ ok url
      → options.allow_private_targets ≡ false
      → (runtime.parse raw_url ≡ ok url)
        × (is_local_hostname (normalize_host runtime url.hostname) ≡ false)
        × (is_private_ip_address runtime (normalize_host runtime url.hostname) ≡ false)
  unfolding assert_webhook_target_allowed
  allowed_host raw_url url h private_off = elim (Result-cases (runtime.parse raw_url)) [
    | inr (message, failed) ↦ absurd (ground arith)
    | inl (parsed, done) ↦
        let hostname = normalize_host runtime parsed.hostname in
        elim (Bool-cases (is_local_hostname hostname || is_private_ip_address runtime hostname)) [
          | inl inside ↦ absurd (ground arith)
          | inr outside ↦
              let same : parsed ≡ url = ground arith in
              let (elsewhere, public) = or_apart _ _ outside in
              (
                done ∙ ap ok same,
                ap (λ u. is_local_hostname (normalize_host runtime u.hostname)) (sym same)
                    ∙ elsewhere,
                ap (λ u. is_private_ip_address runtime (normalize_host runtime u.hostname))
                      (sym same)
                    ∙ public,
              )
        ]
  ]

  public_octets :
      (hostname : String) (a b c d : ℕ)
      → runtime.is_ip (normalize_host runtime hostname) ≡ 4
      → map runtime.number (runtime.split "." (normalize_host runtime hostname))
        ≡ some a ∷ some b ∷ some c ∷ some d ∷ []
      → is_private_ip_address runtime hostname ≡ false
      → is_private_start a b ≡ false
  unfolding is_private_ip_address is_private_ipv4
  public_octets hostname a b c d version parts public =
      let tested : is_private_octets
            (map runtime.number (runtime.split "." (normalize_host runtime hostname)))
          ≡ false =
        ground arith in
      sym (ap is_private_octets parts) ∙ tested

  -- Where private targets are not allowed, a request that is sent to a URL whose host is an address of
  -- four octets, as the policy reads it, goes to an address in none of the eight blocks. Of other hosts
  -- nothing is said.
  pub sent_outside_blocks :
      (hmac : (secret text : String) → String) (print : ℕ → String)
      → (timestamp : String) (response : Result String ℕ) (command : DeliverWebhookCommand)
        (sent : Sent)
      → (deliver runtime options hmac print timestamp response command).sent ≡ some sent
      → options.allow_private_targets ≡ false
      → (url : Url) → runtime.parse command.url ≡ ok url
      → (a b c d : ℕ)
      → runtime.is_ip (normalize_host runtime (normalize_host runtime url.hostname)) ≡ 4
      → map runtime.number
          (runtime.split "." (normalize_host runtime (normalize_host runtime url.hostname)))
        ≡ some a ∷ some b ∷ some c ∷ some d ∷ []
      → b < 256
      → c < 256
      → d < 256
      → (sent.target_url ≡ url.href) × (any (is_in (address a b c d)) private_blocks ≡ false)
  unfolding deliver
  sent_outside_blocks hmac print timestamp response command sent h private_off url parsed a b c d
        version parts b_lt c_lt d_lt =
      elim (Result-cases (assert_webhook_target_allowed runtime command.url options)) [
        | inr (message, refused) ↦ absurd (ground arith)
        | inl (target, allowed) ↦
            let (same, _, public) = allowed_host command.url target allowed private_off in
            let both = sym same ∙ parsed in
            let equal : target ≡ url = ground arith in
            let public_url =
              ap (λ u. is_private_ip_address runtime (normalize_host runtime u.hostname))
                (sym equal)
              ∙ public in
            (
              target_of h allowed ∙ ap (λ u. u.href) equal,
              sym (is_private_start-private_blocks a b c d b_lt c_lt d_lt)
                  ∙ public_octets (normalize_host runtime url.hostname) a b c d version parts
                      public_url,
            )
      ]
    where
      target_of :
          {target : Url}
          → (deliver runtime options hmac print timestamp response command).sent ≡ some sent
          → assert_webhook_target_allowed runtime command.url options ≡ ok target
          → sent.target_url ≡ target.href
      target_of h allowed = ground arith

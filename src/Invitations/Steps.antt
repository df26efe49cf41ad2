-- ===== src/Invitations/Steps.antt =====
-- The use cases on invitations of src/modules/iam/organizations one after another, and the invitations that
-- stay accepted.
use hexagonal.Base.{
  ℕ, ◌≡◌, ◌≢◌, sym, ◌∙◌, inl, inr, String, Bool, true, false, ◌==◌, Option, none, some, is_some,
  List, [], ◌∷◌, find, get_or, arith, eq_iff, ok, Bool-cases, Option-cases, Result-cases,
  if◌then◌else◌,
}
use hexagonal.Table.{find_by, find_by-key, find_by-map}
use hexagonal.Users.Entity.{User}
use hexagonal.Users.Repository
use hexagonal.Members.Repository.{MembershipRole, find_by_user_and_organization}
use hexagonal.ActionTokens.UseCases.{DeliveryMode, sync, async}
use hexagonal.Invitations.Entity.{OrganizationInvitation, create, accept, expire}
use hexagonal.Invitations.Repository.{
  invitation_id, find_active_by_organization_and_email, update, create_member,
}
use hexagonal.Invitations.UseCases.{
  Store, Ports, CreateOrganizationInvitationCommand, invitation_of_token, join, accept_invitation,
  is_member, is_open, prepare_invitation, delivered, create_invitation,
}

pub data Step : Type 0 where
  take : List User → Option String → Bool → (now : ℕ) → (drawn token user_id : String) → Step
  invite :
      List User
      → Option String
      → DeliveryMode
      → (recorded sent : Bool) → (now later : ℕ) → (id secret salt : String)
      → CreateOrganizationInvitationCommand
      → Step

-- A new invitation draws another id, as random UUIDs are.
abbrev pub AreOtherIds : String → List Step → Type 0
AreOtherIds id [] = Unit
AreOtherIds id (invite users tenant mode recorded sent now later drawn secret salt command ∷ ss) =
    (drawn ≢ id) × AreOtherIds id ss
AreOtherIds id (_ ∷ ss) = AreOtherIds id ss

abbrev pub IsTaken : (id : String) → List OrganizationInvitation → Type 0
IsTaken id rows =
    (i : OrganizationInvitation)
    → find_by invitation_id id rows ≡ some i
    → is_some i.accepted_at ≡ true

module _ (ports : Ports) (roles : List MembershipRole) where
  unfoldable pub step : Step → Store → Store
  step (take users tenant recorded now drawn token user_id) store =
      (accept_invitation ports roles users tenant recorded now drawn token user_id store).1
  step (invite users tenant mode recorded sent now later id secret salt command) store =
      (create_invitation ports roles users tenant mode recorded sent now later id secret salt
        command store).1

  abbrev pub steps : List Step → Store → Store
  steps [] store = store
  steps (s ∷ ss) store = steps ss (step s store)

  find_by-update :
      (id : String) (i : OrganizationInvitation) (rows : List OrganizationInvitation)
      → find_by invitation_id id (update i rows) ≡ (elim (find_by invitation_id id rows) [
        | none ↦ none
        | some r ↦ some (
            if r.id == i.id
            then record r {
              accepted_at = i.accepted_at;
              expires_at = i.expires_at;
              token_hash = i.token_hash;
            }
            else r)
      ])
  unfolding update
  find_by-update id i rows = find_by-map invitation_id _ id rows (λ r. ground arith)

  accept-IsTaken :
      (id : String) (now : ℕ) (i : OrganizationInvitation) (rows : List OrganizationInvitation)
      → IsTaken id rows
      → IsTaken id (update (accept now i) rows)
  unfolding accept
  accept-IsTaken id now i rows taken after found =
      let row = find_by-update id (accept now i) rows in
      elim (Option-cases (find_by invitation_id id rows)) [
        | inl missing ↦ absurd (ground arith)
        | inr (r, there) ↦ let kept = taken r there in ground arith
      ]

  pub own-IsTaken :
      (now : ℕ) (i : OrganizationInvitation) (rows : List OrganizationInvitation)
      → IsTaken i.id (update (accept now i) rows)
  unfolding accept
  own-IsTaken now i rows after found =
      let row = find_by-update i.id (accept now i) rows in
      elim (Option-cases (find_by invitation_id i.id rows)) [
        | inl missing ↦ absurd (ground arith)
        | inr (r, there) ↦
            let same = find_by-key invitation_id i.id rows there in ground (arith, eq_iff r.id i.id)
      ]

  other-IsTaken :
      (id : String) (i : OrganizationInvitation) (rows : List OrganizationInvitation)
      → i.id ≢ id
      → IsTaken id rows
      → IsTaken id (update i rows)
  other-IsTaken id i rows other taken after found =
      let row = find_by-update id i rows in
      elim (Option-cases (find_by invitation_id id rows)) [
        | inl missing ↦ absurd (ground arith)
        | inr (r, there) ↦
            let kept = taken r there in
            let same = find_by-key invitation_id id rows there in ground (arith, eq_iff r.id i.id)
      ]

  save-IsTaken :
      (id : String) (i : OrganizationInvitation) (rows : List OrganizationInvitation)
      → i.id ≢ id
      → IsTaken id rows
      → IsTaken id (ports.invitation_saves.save i rows)
  save-IsTaken id i rows other taken after found =
      taken after (ground (arith, ports.invitation_saves.find_by-save id i rows, eq_iff i.id id))

  join-IsTaken :
      (id : String) (recorded : Bool) (now : ℕ) (drawn : String) (i : OrganizationInvitation)
      (user : User) (store : Store)
      → IsTaken id store.invitations
      → IsTaken id (join ports roles recorded now drawn i user store).1.invitations
  unfolding join
  join-IsTaken id recorded now drawn i user store taken after found =
      elim (Option-cases (
        create_member ports.member_saves roles now drawn user.id i.organization_id i.role_id
          store.members)) [
            | inl refused ↦ taken after (ground arith)
            | inr (members, joined) ↦
                accept-IsTaken id now i store.invitations taken after (ground arith)
          ]

  take-IsTaken :
      (id : String) (users : List User) (tenant : Option String) (recorded : Bool) (now : ℕ)
      (drawn token user_id : String) (store : Store)
      → IsTaken id store.invitations
      → IsTaken id
          (accept_invitation ports roles users tenant recorded now drawn token user_id
            store).1.invitations
  unfolding accept_invitation
  take-IsTaken id users tenant recorded now drawn token user_id store taken after found =
      elim (Result-cases (invitation_of_token ports roles now token store.invitations)) [
        | inr (e, refused) ↦ taken after (ground arith)
        | inl (i, known) ↦
            elim (Option-cases (Repository.find_by_id ports.texts false user_id users)) [
              | inl nobody ↦ taken after (ground arith)
              | inr (user, there) ↦ elim (Bool-cases (user.email == i.email)) [
                | inr foreign ↦ taken after (ground arith)
                | inl own ↦
                    elim (Option-cases (
                      find_by_user_and_organization tenant user.id i.organization_id
                        store.members)) [
                          | inr (existing, before) ↦ taken after (ground arith)
                          | inl newcomer ↦
                              join-IsTaken id recorded now drawn i user store taken after
                                (ground arith)
                        ]
              ]
            ]
      ]

  delivered-IsTaken :
      (id : String) (mode : DeliveryMode) (sent : Bool) (later : ℕ) (i : OrganizationInvitation)
      (token : String) (store : Store)
      → i.id ≢ id
      → IsTaken id store.invitations
      → IsTaken id (delivered ports roles mode sent later i token store).1.invitations
  unfolding expire
  delivered-IsTaken id mode true later i token store other taken =
      save-IsTaken id i store.invitations other taken
  delivered-IsTaken id async false later i token store other taken = taken
  delivered-IsTaken id sync false later i token store other taken =
      other-IsTaken id (expire later i) (ports.invitation_saves.save i store.invitations) other
        (save-IsTaken id i store.invitations other taken)

  prepare-id :
      (users : List User) (tenant : Option String) (recorded : Bool) (now : ℕ)
      (id secret salt : String) (command : CreateOrganizationInvitationCommand) (store : Store)
      (i : OrganizationInvitation) (token : String)
      → prepare_invitation ports roles users tenant recorded now id secret salt command store
        ≡ ok (i, token)
      → i.id ≡ id
  unfolding prepare_invitation create
  prepare-id users tenant recorded now id secret salt command store i token h =
      elim (Option-cases
        (find (λ (r : MembershipRole). r.name == get_or command.role_code "member") roles)) [
          | inl no_role ↦ absurd (ground arith)
          | inr (role, known) ↦
              elim (Option-cases (is_member ports roles users tenant command store.members)) [
                | inr (user_id, before) ↦ absurd (ground arith)
                | inl newcomer ↦
                    elim (Bool-cases (
                      is_open ports roles now (
                        find_active_by_organization_and_email ports.texts command.organization_id
                          command.email store.invitations))) [
                            | inl running ↦ absurd (ground arith)
                            | inr vacant ↦
                                elim (Option-cases
                                  (ports.organization_name command.organization_id)) [
                                    | inl no_organization ↦ absurd (ground arith)
                                    | inr (name, there) ↦ elim (Bool-cases recorded) [
                                      | inr undone ↦ absurd (ground arith)
                                      | inl done ↦ ground arith
                                    ]
                                  ]
                          ]
              ]
        ]

  invite-IsTaken :
      (id : String) (users : List User) (tenant : Option String) (mode : DeliveryMode)
      (recorded sent : Bool) (now later : ℕ) (drawn secret salt : String)
      (command : CreateOrganizationInvitationCommand) (store : Store)
      → drawn ≢ id
      → IsTaken id store.invitations
      → IsTaken id
          (create_invitation ports roles users tenant mode recorded sent now later drawn secret salt
            command store).1.invitations
  unfolding create_invitation
  invite-IsTaken id users tenant mode recorded sent now later drawn secret salt command store other
        taken after found =
      elim (Result-cases (
        prepare_invitation ports roles users tenant recorded now drawn secret salt command store)) [
          | inr (e, refused) ↦ taken after (ground arith)
          | inl ((i, token), prepared) ↦
              let same =
                prepare-id users tenant recorded now drawn secret salt command store i token
                  prepared in
              delivered-IsTaken id mode sent later i token store (λ e. other (sym same ∙ e)) taken
                after (ground arith)
        ]

  pub steps-IsTaken :
      (id : String) (ss : List Step) (store : Store)
      → AreOtherIds id ss
      → IsTaken id store.invitations
      → IsTaken id (steps ss store).invitations
  unfolding step
  steps-IsTaken id [] store others taken = taken
  steps-IsTaken id (take users tenant recorded now drawn token user_id ∷ ss) store others taken =
      steps-IsTaken id ss _ others
        (take-IsTaken id users tenant recorded now drawn token user_id store taken)
  steps-IsTaken id (invite users tenant mode recorded sent now later drawn secret salt command ∷ ss)
        store (other, others) taken =
      steps-IsTaken id ss _ others (
        invite-IsTaken id users tenant mode recorded sent now later drawn secret salt command store
          other taken)

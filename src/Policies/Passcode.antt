-- ===== src/Policies/Passcode.antt =====
-- The passcode that leaves the kiosk mode, over updates of a policy
-- (server/internal/policy/postgres/store.go).
use Prim.Native.String.{String}
use xmdm.Common.{
  ◌≡◌, refl, sym, ap, Bool, true, false, ◌||◌, not, some, str_eq, trim_space, arith, Bool-cases,
  inl, inr, find_if,
}
use xmdm.Common.Trim.{trim_twice}
use xmdm.Common.Json.{Json}
use xmdm.Database.Rows.{Db, Time, PolicyRow}
use xmdm.Database.{Error, ok, err, calm, raise, ◌>>=◌, query, found, step, attempt}
use xmdm.Database.Yields.{Yields, Yields-bind, Yields-bind_with, Yields-exec}
use xmdm.Database.Table.{of_id, select_one, written}
use xmdm.Database.Stands.{update_row-changed, Yields-answered}
use xmdm.Database.Tables.{policies_table}
use xmdm.Policies.{
  PolicyUpsert, Restrictions, Codec, is_null, read_restrictions, blank,
  kiosk_exit_passcode_configured, carried, merge_kiosk_exit_passcode, kept_restrictions,
  given_restrictions, write_policy, update_policy,
}

-- encoding/json reads back what it wrote of the struct, which is no `null`.
pub record IsFaithful (codec : Codec) : Type 0 where
  pub reads_back : (r : Restrictions) → codec.unmarshal (codec.marshal r) ≡ (r, true)
  pub no_null : (r : Restrictions) → is_null (codec.marshal r) ≡ false

-- A struct with a passcode or the hash of one.
abbrev has_passcode : Restrictions → Bool
has_passcode r = not (blank r.kiosk_exit_passcode) || not (blank r.kiosk_exit_passcode_hash)

read_of : Codec → Json → Restrictions
read_of codec r = (codec.unmarshal r).0

false_ne_true : false ≡ true → ⊥
false_ne_true h = ground arith

configured-read :
    (codec : Codec) (r : Json)
    → kiosk_exit_passcode_configured codec r ≡ true
    → has_passcode (read_restrictions codec r) ≡ true
unfolding kiosk_exit_passcode_configured
configured-read codec r h = elim (Bool-cases (is_null r)) [
  | inl null' ↦ absurd (false_ne_true (rw null' at h))
  | inr value ↦ elim (Bool-cases (codec.unmarshal r).1) [
    | inl read ↦ rw value (rw (value, read) at h)
    | inr unread ↦ absurd (false_ne_true (rw (value, unread) at h))
  ]
]

second_of : (a b : Bool) → (not a || not b) ≡ true → a ≡ true → b ≡ false
second_of a b h k = ground arith

either : (a b : Bool) → b ≡ false → (not a || not b) ≡ true
either a b h = ground arith

carried-has_passcode :
    (current updated : Restrictions)
    → has_passcode current ≡ true
    → has_passcode (carried current updated) ≡ true
unfolding carried
carried-has_passcode current updated h = elim (Bool-cases (blank updated.kiosk_exit_passcode)) [
  | inr given ↦ rw (given, given) refl
  | inl missing ↦ elim (Bool-cases (blank current.kiosk_exit_passcode)) [
    | inr passcode ↦ rw (missing, passcode, trim_twice current.kiosk_exit_passcode passcode) refl
    | inl none' ↦
        let hash = second_of _ _ h none' in
        rw (missing, none')
          (either (blank (trim_space current.kiosk_exit_passcode)) _
            (trim_twice current.kiosk_exit_passcode_hash hash))
  ]
]

merge-configured :
    (codec : Codec) (existing next : Json)
    → IsFaithful codec
    → kiosk_exit_passcode_configured codec existing ≡ true
    → kiosk_exit_passcode_configured codec (merge_kiosk_exit_passcode codec existing next) ≡ true
unfolding merge_kiosk_exit_passcode kiosk_exit_passcode_configured
merge-configured codec existing next faithful h =
    let r = carried (read_restrictions codec existing) (read_restrictions codec next) in
    rw (faithful.no_null r, faithful.reads_back r)
      (carried-has_passcode (read_restrictions codec existing) (read_restrictions codec next)
        (configured-read codec existing h))

kept-configured :
    (codec : Codec) (existing : PolicyRow) (next : Json)
    → IsFaithful codec
    → existing.kiosk_mode ≡ true
    → kiosk_exit_passcode_configured codec existing.restrictions ≡ true
    → kiosk_exit_passcode_configured codec (kept_restrictions codec existing next) ≡ true
unfolding kept_restrictions
kept-configured codec existing next faithful kiosk h =
    elim (Bool-cases (kiosk_exit_passcode_configured codec next)) [
      | inl given ↦ rw (kiosk, given) given
      | inr missing ↦
          rw (kiosk, missing) (merge-configured codec existing.restrictions next faithful h)
    ]

Yields-write_policy :
    (tenant id : String) (req : PolicyUpsert) (restrictions : Json)
    → Yields (λ p. p.restrictions ≡ restrictions) (write_policy tenant id req restrictions)
unfolding write_policy
Yields-write_policy tenant id req restrictions = Yields-bind _ _ λ time.
    Yields-bind_with _ _
      (Yields-exec {P = λ w. (p : PolicyRow) → w ≡ written p → p.restrictions ≡ restrictions} _
        λ db p h.
          let changed = update_row-changed policies_table _ _ _ db p h in
          sym (ap (λ (q : PolicyRow). q.restrictions) changed.1))
      λ w same. Yields-answered _ w same

not_ok : {A : Type 0} {e : Error} (row : A) → err e ≡ ok row → ⊥
not_ok row h = ground arith

-- A policy that is in kiosk mode with a passcode to leave it has one after any UpdatePolicy that
-- returns and leaves it in kiosk mode, whatever restrictions the request has, where no statement fails.
pub update_policy-keeps_passcode :
    (codec : Codec) (tenant id : String) (req : PolicyUpsert) (d : Db) (t : Time)
    (existing p : PolicyRow)
    → IsFaithful codec
    → find_if (of_id policies_table tenant id) d.catalog.policies ≡ some existing
    → existing.kiosk_mode ≡ true
    → kiosk_exit_passcode_configured codec existing.restrictions ≡ true
    → req.kiosk_mode ≡ true
    → (update_policy codec tenant id req (calm d t)).0 ≡ ok p
    → kiosk_exit_passcode_configured codec p.restrictions ≡ true
unfolding update_policy select_one query step attempt found ◌>>=◌ raise
update_policy-keeps_passcode codec tenant id req d t existing p faithful there kiosk configured
      stays h =
    elim (Bool-cases (str_eq req.name "")) [
      | inl blank' ↦ absurd (not_ok p (rw blank' at h))
      | inr named ↦
          let same =
            (Yields-write_policy tenant id (record req { kiosk_mode = true })
                (kept_restrictions codec existing (given_restrictions req.restrictions))).at
              (calm d t) p (rw (named, stays, there) at h) in
          rw same (kept-configured codec existing _ faithful kiosk configured)
    ]

-- ===== src/Commands/Lifecycle/Steps.antt =====
-- The changes that single statements make to the rows.
use xmdm.Common.{
  List, [], ◌∷◌, ◌++◌, ◌≡◌, ◌⊎◌, refl, ◌∙◌, subst, String, Bool, true, false, ◌||◌, some,
  if◌then◌else◌, inl, inr, All, arith,
}
use xmdm.Common.Json.{Json}
use xmdm.Database.Rows.{Time, CommandRow, CommandStatus, queued, sent}
use xmdm.Database.Query.{update_where}
use xmdm.Commands.{is_open, is_acked, is_failed, is_queued}
use xmdm.Commands.Queue.{mark_sent_row}
use xmdm.Commands.Delivery.{expire_row, ack_row, expires, takes_ack, reported}
use xmdm.Commands.Lifecycle.{Move, stay, send, expire, report, RowStep, Evolves, IsSound}

Move-trans : {a b c : CommandStatus} → Move a b → Move b c → Move a c
Move-trans stay m = m
Move-trans send stay = send
Move-trans send (expire h) = expire refl
Move-trans send (report h k) = report refl k
Move-trans (expire h) stay = expire h
Move-trans (expire h) (expire k) = expire h
Move-trans (expire h) (report k l) = report h l
Move-trans (report h k) stay = report h k
Move-trans (report h k) send = absurd (ground arith)
Move-trans (report h k) (expire l) = expire h
Move-trans (report h k) (report l m) = report h m

pub RowStep-refl : (c : CommandRow) → RowStep c c
RowStep-refl c = record {
  same_id = refl;
  same_tenant = refl;
  same_device = refl;
  same_type = refl;
  same_payload = refl;
  same_expiry = refl;
  same_creation = refl;
  move = stay;
  final = inr refl;
}

final_trans :
    {a b c : CommandRow}
    → (is_open a.status ≡ true) ⊎ (b ≡ a)
    → (is_open b.status ≡ true) ⊎ (c ≡ b)
    → (is_open a.status ≡ true) ⊎ (c ≡ a)
final_trans (inl open_first) k = inl open_first
final_trans (inr same) (inl open_then) =
    inl (subst (λ (r : CommandRow). is_open r.status ≡ true) same open_then)
final_trans (inr same) (inr same_then) = inr (same_then ∙ same)

RowStep-trans : {a b c : CommandRow} → RowStep a b → RowStep b c → RowStep a c
RowStep-trans {a} {b} {c} h k = record {
  same_id = k.same_id ∙ h.same_id;
  same_tenant = k.same_tenant ∙ h.same_tenant;
  same_device = k.same_device ∙ h.same_device;
  same_type = k.same_type ∙ h.same_type;
  same_payload = k.same_payload ∙ h.same_payload;
  same_expiry = k.same_expiry ∙ h.same_expiry;
  same_creation = k.same_creation ∙ h.same_creation;
  move = Move-trans h.move k.move;
  final = final_trans h.final k.final;
}

Move-sent : (a : CommandStatus) → is_queued a ≡ true → Move a sent
Move-sent queued h = send
Move-sent _ h = absurd (ground arith)

open_of_queued : (a : CommandStatus) → is_queued a ≡ true → is_open a ≡ true
open_of_queued a h = ground arith

pub RowStep-sent :
    (c : CommandRow) (t : Time) → is_queued c.status ≡ true → RowStep c (mark_sent_row t c)
RowStep-sent c t h = record {
  same_id = refl;
  same_tenant = refl;
  same_device = refl;
  same_type = refl;
  same_payload = refl;
  same_expiry = refl;
  same_creation = refl;
  move = Move-sent c.status h;
  final = inl (open_of_queued c.status h);
}

pub RowStep-expired :
    (c : CommandRow) (t : Time) → is_open c.status ≡ true → RowStep c (expire_row t c)
RowStep-expired c t h = record {
  same_id = refl;
  same_tenant = refl;
  same_device = refl;
  same_type = refl;
  same_payload = refl;
  same_expiry = refl;
  same_creation = refl;
  move = expire h;
  final = inl h;
}

pub RowStep-acked :
    (c : CommandRow) (status : CommandStatus) (result : Json) (t : Time)
    → is_open c.status ≡ true
    → (is_acked status || is_failed status) ≡ true
    → RowStep c (ack_row status result t c)
RowStep-acked c status result t h k = record {
  same_id = refl;
  same_tenant = refl;
  same_device = refl;
  same_type = refl;
  same_payload = refl;
  same_expiry = refl;
  same_creation = refl;
  move = report h k;
  final = inl h;
}

pub Evolves-refl : (cs : List CommandRow) → Evolves cs cs
Evolves-refl [] = tt
Evolves-refl (c ∷ cs) = (RowStep-refl c, Evolves-refl cs)

pub Evolves-append :
    (cs ds : List CommandRow) (row : CommandRow) → Evolves cs ds → Evolves cs (ds ++ row ∷ [])
Evolves-append [] ds row h = tt
Evolves-append (c ∷ cs) [] row h = absurd h
Evolves-append (c ∷ cs) (d ∷ ds) row h = (h.0, Evolves-append cs ds row h.1)

RowStep-if :
    (b : Bool) (c d e : CommandRow)
    → RowStep c d
    → (b ≡ true → RowStep d e)
    → RowStep c (if b then e else d)
RowStep-if true c d e h k = RowStep-trans h (k refl)
RowStep-if false c d e h k = h

-- An UPDATE whose change is a step of every row that it fits.
pub Evolves-update_where :
    (cs ds : List CommandRow) (fits : CommandRow → Bool) (change : CommandRow → CommandRow)
    → ((d : CommandRow) → fits d ≡ true → RowStep d (change d))
    → Evolves cs ds
    → Evolves cs (update_where fits change ds)
unfolding update_where
Evolves-update_where [] ds fits change k h = tt
Evolves-update_where (c ∷ cs) [] fits change k h = absurd h
Evolves-update_where (c ∷ cs) (d ∷ ds) fits change k h =
    (RowStep-if (fits d) c d (change d) h.0 (k d), Evolves-update_where cs ds fits change k h.1)

-- What holds of every row still does after an UPDATE that keeps it on the rows it fits.
pub All-update_where :
    (P : CommandRow → Type 0) (ds : List CommandRow) (fits : CommandRow → Bool)
    (change : CommandRow → CommandRow)
    → ((d : CommandRow) → fits d ≡ true → P d → P (change d))
    → All P ds
    → All P (update_where fits change ds)
unfolding update_where
All-update_where P [] fits change k h = tt
All-update_where P (d ∷ ds) fits change k h =
    (here (fits d) refl, All-update_where P ds fits change k h.1)
  where
    here : (b : Bool) → fits d ≡ b → P (if b then change d else d)
    here true e = k d e h.0
    here false e = h.0

pub reported_closes :
    (word : String) (status : CommandStatus)
    → reported word ≡ some status
    → (is_acked status || is_failed status) ≡ true
unfolding reported
reported_closes word status h = ground arith

pub expires-open :
    (scope : CommandRow → Bool) (t : Time) (c : CommandRow)
    → expires scope t c ≡ true
    → is_open c.status ≡ true
expires-open scope t c h = ground arith

pub takes_ack-open :
    (tenant device id : String) (t : Time) (c : CommandRow)
    → takes_ack tenant device id t c ≡ true
    → is_open c.status ≡ true
takes_ack-open tenant device id t c h = ground arith

pub IsSound-sent :
    (c : CommandRow) (t : Time)
    → is_queued c.status ≡ true
    → IsSound c
    → IsSound (mark_sent_row t c)
IsSound-sent c t h s = ground arith

pub IsSound-expired :
    (c : CommandRow) (t : Time) → is_open c.status ≡ true → IsSound c → IsSound (expire_row t c)
IsSound-expired c t h s = ground arith

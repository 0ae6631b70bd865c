-- ===== src/Team/Delivery/Routes.antt =====
-- Routes of a status by the table of `is_valid_transition`.
use gooselake.Base.{
  String, ◌==◌, eq_iff, true, false, ◌≡◌, refl, ap, inl, inr, some, arith, Bool-cases,
}
use mathlib.Core.Path.{subst}
use gooselake.Map
use gooselake.Map.Laws.{get-insert}
use gooselake.Records.{TeamDeliveryRecord, DeliveryStatus}
use gooselake.World.{TeamCommsState}
use gooselake.Session.Apart.{CommsOrder}
use gooselake.Team.{insert_delivery}
use gooselake.Team.Helpers.{is_terminal_status, is_valid_transition, same_status}

-- A route of the table.
pub data Route (a : DeliveryStatus) : DeliveryStatus → Type 0 where
  stay : Route a a
  step : {b c : DeliveryStatus} → Route a b → is_valid_transition b c ≡ true → Route a c

Route-trans : {a b c : DeliveryStatus} → Route a b → Route b c → Route a c
Route-trans r stay = r
Route-trans r (step s h) = step (Route-trans r s) h

valid-not-terminal :
    (a b : DeliveryStatus) → is_valid_transition a b ≡ true → is_terminal_status a ≡ false
unfolding is_valid_transition is_terminal_status
valid-not-terminal a b h = ground arith

-- No route leaves a status that has ended.
Route-terminal : {a b : DeliveryStatus} → Route a b → is_terminal_status a ≡ true → b ≡ a
Route-terminal stay h = refl
Route-terminal {a} (step {b = b} {c = c} r v) h =
    cc (Route-terminal r h, valid-not-terminal b c v, h)

pub same_status-eq : (a b : DeliveryStatus) → same_status a b ≡ true → a ≡ b
unfolding same_status
same_status-eq (DeliveryStatus.other s) (DeliveryStatus.other t) h =
    ap DeliveryStatus.other ((eq_iff s t).0 h)
same_status-eq a b h = ground arith

-- Every delivery is still there, and its status followed the table.
pub record Follows (c c' : TeamCommsState) : Type 0 where
  pub at :
      (id : String) (d : TeamDeliveryRecord)
      → Map.get id c.deliveries ≡ some d
      → (d' : TeamDeliveryRecord) × (Map.get id c'.deliveries ≡ some d') × Route d.status d'.status

pub Follows-order : CommsOrder Follows
Follows-order = record {
  refl_at = λ c. record { at = λ id d h. (d, h, stay) };
  trans_at = λ a b c p q. record {
    at = λ id d h.
        let (d', h', r) = p.at id d h in
        let (d'', h'', s) = q.at id d' h' in (d'', h'', Route-trans r s);
  };
}

same_found :
    (c : TeamCommsState) (id j : String) (old d : TeamDeliveryRecord)
    → id == j ≡ true
    → Map.get id c.deliveries ≡ some old
    → Map.get j c.deliveries ≡ some d
    → old ≡ d
same_found c id j old d hit h e = cc ((eq_iff id j).0 hit)

-- A write at an id whose delivery it moves by a route.
pub insert-Follows :
    (c : TeamCommsState) (id : String) (old new : TeamDeliveryRecord)
    → Map.get id c.deliveries ≡ some old
    → Route old.status new.status
    → Follows c (insert_delivery id new c)
insert-Follows c id old new h r = record {
  at = λ j d e. elim (Bool-cases (id == j)) [
    | inl hit ↦ (
      new,
      rw (get-insert id j new c.deliveries, hit) refl,
      subst (λ (x : TeamDeliveryRecord). Route x.status new.status)
          (same_found c id j old d hit h e) r,
    )
    | inr miss ↦ (d, rw (get-insert id j new c.deliveries, miss) e, stay)
  ];
}

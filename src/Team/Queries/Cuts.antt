-- ===== src/Team/Queries/Cuts.antt =====
-- Cutting a list of ids into pages, and the cursor that stands for the end of a page.
use gooselake.Base.{
  ℕ, zero, suc, ◌+◌, String, ◌==◌, eq_iff, eq_refl, false, ◌≡◌, refl, sym, ap, ◌∙◌, ◌⊎◌, inl, inr,
  List, [], ◌∷◌, ◌++◌, some, arith, Option-cases, length, length-append,
}
use mathlib.Core.Path.{subst}
use mathlib.Core.List.{append_assoc}
use gooselake.Map
use gooselake.Records.{TeamMessageRecord}
use gooselake.World.{TeamCommsState}
use gooselake.Team.Queries.{position_after, one_more, skip, take, messages_at, message_of, last_id}

-- Each id is that of a message, and comes once.
abbrev pub AllHeld : TeamCommsState → List String → Type 0
AllHeld c [] = Unit
AllHeld c (id ∷ ids) =
    ((m : TeamMessageRecord) × (Map.get id c.messages ≡ some m) × (m.id ≡ id)) × AllHeld c ids

abbrev pub IsNot : String → List String → Type 0
IsNot id [] = Unit
IsNot id (x ∷ xs) = ((x == id) ≡ false) × IsNot id xs

abbrev pub AllOnce : List String → Type 0
AllOnce [] = Unit
AllOnce (id ∷ ids) = IsNot id ids × AllOnce ids

pub skip-append : (before rest : List String) → skip (length before) (before ++ rest) ≡ rest
unfolding skip
skip-append [] rest = refl
skip-append (x ∷ xs) rest = skip-append xs rest

-- A page takes all, or as many as it may.
pub record Cut (n : ℕ) (ids : List String) : Type 0 where
  pub taken : List String
  pub left : List String
  pub whole : taken ++ left ≡ ids
  pub first : take n ids ≡ taken
  pub full : (left ≡ []) ⊎ (length taken ≡ n)

pub cut : (n : ℕ) (ids : List String) → Cut n ids
unfolding take
cut zero [] = record { taken = []; left = []; whole = refl; first = refl; full = inr refl }
cut zero (x ∷ xs) = record {
  taken = [];
  left = x ∷ xs;
  whole = refl;
  first = refl;
  full = inr refl;
}
cut (suc n) [] = record { taken = []; left = []; whole = refl; first = refl; full = inl refl }
cut (suc n) (x ∷ xs) =
    let k = cut n xs in
    record {
      taken = x ∷ k.taken;
      left = k.left;
      whole = ap (λ (l : List String). x ∷ l) k.whole;
      first = ap (λ (l : List String). x ∷ l) k.first;
      full = elim k.full [ inl e ↦ inl e | inr e ↦ inr (ap suc e) ];
    }

pub size : {n : ℕ} {ids : List String} (k : Cut n ids) → length k.taken + length k.left ≡ length ids
size k = sym (length-append k.taken k.left) ∙ ap length k.whole

pub filled :
    {n : ℕ} {ids ys : List String} {y : String} (k : Cut n ids)
    → k.left ≡ y ∷ ys
    → length k.taken ≡ n
filled k e = elim k.full [ inl e' ↦ cc | inr f ↦ f ]

pub messages_at-append :
    (c : TeamCommsState) (xs ys : List String)
    → messages_at c (xs ++ ys) ≡ messages_at c xs ++ messages_at c ys
unfolding messages_at message_of
messages_at-append c [] ys = refl
messages_at-append c (x ∷ xs) ys = elim (Option-cases (Map.get x c.messages)) [
  | inl e ↦ rw e (messages_at-append c xs ys)
  | inr (m, e) ↦ rw e (ap (λ (l : List TeamMessageRecord). m ∷ l) (messages_at-append c xs ys))
]

pub length-messages_at :
    (c : TeamCommsState) (xs : List String) → AllHeld c xs → length (messages_at c xs) ≡ length xs
unfolding messages_at message_of
length-messages_at c [] h = refl
length-messages_at c (x ∷ xs) ((m, e, own), h) = rw e (ap suc (length-messages_at c xs h))

pub last_id-append :
    (ms : List TeamMessageRecord) (m : TeamMessageRecord) → last_id (ms ++ m ∷ []) ≡ some m.id
unfolding last_id
last_id-append [] m = refl
last_id-append (a ∷ []) m = refl
last_id-append (a ∷ b ∷ ms) m = last_id-append (b ∷ ms) m

pub position_after-mid :
    (z : String) (xs after : List String)
    → IsNot z xs
    → position_after z (xs ++ z ∷ after) ≡ some (suc (length xs))
unfolding position_after one_more
position_after-mid z [] after h = rw (eq_refl z) refl
position_after-mid z (x ∷ xs) after (miss, h) = rw (miss, position_after-mid z xs after h) refl

pub IsNot-mid :
    (x z : String) (xs after : List String) → IsNot x (xs ++ z ∷ after) → (x == z) ≡ false
IsNot-mid x z [] after (miss, h) = ground (arith, eq_iff x z, eq_iff z x)
IsNot-mid x z (y ∷ ys) after (miss, h) = IsNot-mid x z ys after h

pub AllOnce-mid : (z : String) (xs after : List String) → AllOnce (xs ++ z ∷ after) → IsNot z xs
AllOnce-mid z [] after h = tt
AllOnce-mid z (x ∷ xs) after (once, h) = (IsNot-mid x z xs after once, AllOnce-mid z xs after h)

-- The last of a list that is not empty.
pub last_of :
    (x : String) (xs : List String)
    → (init : List String) × (z : String) × (x ∷ xs ≡ init ++ z ∷ [])
last_of x [] = ([], x, refl)
last_of x (y ∷ ys) =
    let (init, z, e) = last_of y ys in (x ∷ init, z, ap (λ (l : List String). x ∷ l) e)

pub AllHeld-split :
    (c : TeamCommsState) (xs ys : List String) → AllHeld c (xs ++ ys) → AllHeld c xs × AllHeld c ys
AllHeld-split c [] ys h = (tt, h)
AllHeld-split c (x ∷ xs) ys (m, h) = let (p, q) = AllHeld-split c xs ys h in ((m, p), q)

pub counted :
    (before init : List String) (z : String)
    → suc (length (before ++ init)) ≡ length (before ++ (init ++ z ∷ []))
counted [] [] z = refl
counted [] (x ∷ xs) z = ap suc (counted [] xs z)
counted (x ∷ xs) init z = ap suc (counted xs init z)

-- The cursor of a page that is not the last stands for the page's end.
pub page-cursor :
    (c : TeamCommsState) (before : List String) (x : String) (xs left : List String)
    → AllHeld c (x ∷ xs)
    → AllOnce (before ++ ((x ∷ xs) ++ left))
    → (z : String) × (last_id (messages_at c (x ∷ xs)) ≡ some z)
      × (position_after z (before ++ ((x ∷ xs) ++ left)) ≡ some (length (before ++ x ∷ xs)))
unfolding messages_at message_of
page-cursor c before x xs left held once =
    let (init, z, e) = last_of x xs in
    let (_, ((m, found, own), _)) = AllHeld-split c init (z ∷ []) (subst (AllHeld c) e held) in
    let whole : before ++ ((x ∷ xs) ++ left) ≡ (before ++ init) ++ z ∷ left =
      ap (λ (l : List String). before ++ (l ++ left)) e
      ∙ (ap (λ (l : List String). before ++ l) (append_assoc init (z ∷ []) left)
          ∙ sym (append_assoc before init (z ∷ left))) in
    (
      z,
      ap (λ (l : List String). last_id (messages_at c l)) e
          ∙ (ap last_id (messages_at-append c init (z ∷ []))
              ∙ rw found (last_id-append (messages_at c init) m ∙ ap some own)),
      ap (position_after z) whole
          ∙ (position_after-mid z (before ++ init) left
                (AllOnce-mid z (before ++ init) left (subst AllOnce whole once))
              ∙ ap some
                  (counted before init z ∙ ap (λ (l : List String). length (before ++ l)) (sym e))),
    )

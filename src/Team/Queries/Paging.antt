-- ===== src/Team/Queries/Paging.antt =====
-- A client that follows the cursors of `list_messages`.
use gooselake.Base.{
  ℕ, zero, suc, ◌+◌, ◌-◌, ◌<◌, String, true, false, ◌≡◌, refl, sym, ap, ◌∙◌, ◌⊎◌, inl, inr, List,
  [], ◌∷◌, ◌++◌, Option, none, some, arith, if◌then◌else◌, Bool-cases, ltb, length, length-append,
}
use mathlib.Core.Path.{subst}
use mathlib.Core.List.{append_assoc, append-nil}
use gooselake.Records.{TeamMessageRecord}
use gooselake.World.{TeamCommsState}
use gooselake.Team.Queries.{
  TeamListMessagesResponse, position_after, skip, take, messages_at, last_id, page, page_limit,
}
use gooselake.Team.Queries.Cuts.{
  AllHeld, AllHeld-split, AllOnce, cut, filled, length-messages_at, messages_at-append, page-cursor,
  size, skip-append, Cut,
}

unfoldable pub prepend :
    List TeamMessageRecord → Option (List TeamMessageRecord) → Option (List TeamMessageRecord)
prepend found none = none
prepend found (some rest) = some (found ++ rest)

-- The messages of at most `pages` pages from `start` on, each from the cursor of the one before.
-- Nothing, if that is not all, or a cursor is not found.
unfoldable pub follow : ℕ → TeamCommsState → List String → ℕ → ℕ → Option (List TeamMessageRecord)
unfolding prepend
follow zero c ids start limit = none
follow (suc pages) c ids start limit =
    let p = page c ids start limit in
    elim p.next_cursor [
      | none ↦ some p.messages
      | some cursor ↦ elim (position_after cursor ids) [
        | none ↦ none
        | some next ↦ prepend p.messages (follow pages c ids next limit)
      ]
    ]

List-cases : (xs : List String) → (xs ≡ []) ⊎ ((y : String) × (ys : List String) × (xs ≡ y ∷ ys))
List-cases [] = inl refl
List-cases (y ∷ ys) = inr (y, ys, refl)

ltb_self : (n : ℕ) → ltb n n ≡ false
ltb_self n = ground arith

ltb-add : (n m : ℕ) → ltb n (n + suc m) ≡ true
ltb-add n m = ground arith

module _ (c : TeamCommsState) (ids : List String) (l : ℕ) (once : AllOnce ids) where
  page-Cut :
      (before rest : List String) (k : Cut (suc l) rest)
      → ids ≡ before ++ rest
      → AllHeld c rest
      → page c ids (length before) (suc l) ≡ record {
        messages = messages_at c k.taken;
        next_cursor =
            if ltb (length k.taken) (length rest) then last_id (messages_at c k.taken) else none;
      }
  unfolding page
  page-Cut before rest k whole held =
      let paged : take (suc l) (skip (length before) ids) ≡ k.taken =
        ap (λ (x : List String). take (suc l) (skip (length before) x)) whole
        ∙ (ap (take (suc l)) (skip-append before rest) ∙ k.first) in
      let (here, _) = AllHeld-split c k.taken k.left (subst (AllHeld c) (sym k.whole) held) in
      let size : length ids - length before ≡ length rest =
        omega (arith, ap length whole, length-append before rest) in
      rw (paged, length-messages_at c k.taken here, size) refl

  follow-last :
      (pages start limit : ℕ)
      → (page c ids start limit).next_cursor ≡ none
      → follow (suc pages) c ids start limit ≡ some (page c ids start limit).messages
  unfolding follow
  follow-last pages start limit e = rw (follow, e) refl

  follow-next :
      (pages start limit : ℕ) (z : String) (next : ℕ) (more : List TeamMessageRecord)
      → (page c ids start limit).next_cursor ≡ some z
      → position_after z ids ≡ some next
      → follow pages c ids next limit ≡ some more
      → follow (suc pages) c ids start limit ≡ some ((page c ids start limit).messages ++ more)
  unfolding follow prepend
  follow-next pages start limit z next more e e' rest = rw (follow, e, e', rest) refl

  follow-end :
      (pages : ℕ) (before rest : List String) (k : Cut (suc l) rest)
      → ids ≡ before ++ rest
      → AllHeld c rest
      → k.left ≡ []
      → follow (suc pages) c ids (length before) (suc l) ≡ some (messages_at c rest)
  follow-end pages before rest k whole held e =
      let p = page-Cut before rest k whole held in
      let all : k.taken ≡ rest =
        sym (append-nil k.taken) ∙ (ap (λ (x : List String). k.taken ++ x) (sym e) ∙ k.whole) in
      follow-last pages (length before) (suc l) (rw (p, all, ltb_self (length rest)) refl)
      ∙ ap (λ (r : TeamListMessagesResponse). some r.messages) p
      ∙ ap (λ (x : List String). some (messages_at c x)) all

  follow-more :
      (pages : ℕ) (before rest : List String) (k : Cut (suc l) rest) (x y : String)
      (xs ys : List String)
      → ids ≡ before ++ rest
      → AllHeld c rest
      → k.left ≡ y ∷ ys
      → k.taken ≡ x ∷ xs
      → follow pages c ids (length (before ++ k.taken)) (suc l) ≡ some (messages_at c k.left)
      → follow (suc pages) c ids (length before) (suc l) ≡ some (messages_at c rest)
  follow-more pages before rest k x y xs ys whole held e t ih =
      let p = page-Cut before rest k whole held in
      let (here, _) = AllHeld-split c k.taken k.left (subst (AllHeld c) (sym k.whole) held) in
      let split : before ++ (k.taken ++ k.left) ≡ ids =
        ap (λ (r : List String). before ++ r) k.whole ∙ sym whole in
      let split' : before ++ ((x ∷ xs) ++ k.left) ≡ ids =
        ap (λ (r : List String). before ++ (r ++ k.left)) (sym t) ∙ split in
      let (z, last, at) =
        page-cursor c before x xs k.left (subst (AllHeld c) t here)
          (subst AllOnce (sym split') once) in
      let later : ltb (length k.taken) (length rest) ≡ true =
        rw (sym (size k), ap length e) (ltb-add (length k.taken) (length ys)) in
      follow-next pages (length before) (suc l) z (length (before ++ k.taken))
        (messages_at c k.left) (rw (p, later, t) last)
        (ap (position_after z) (sym split')
          ∙ at
          ∙ ap (λ (r : List String). some (length (before ++ r))) (sym t))
        ih
      ∙ ap (λ (r : TeamListMessagesResponse). some (r.messages ++ messages_at c k.left)) p
      ∙ ap some (sym (messages_at-append c k.taken k.left) ∙ ap (messages_at c) k.whole)

  follow-rest :
      (pages : ℕ) (before rest : List String)
      → ids ≡ before ++ rest
      → AllHeld c rest
      → length rest < suc pages
      → follow (suc pages) c ids (length before) (suc l) ≡ some (messages_at c rest)
  follow-rest zero before rest whole held enough =
      let k = cut (suc l) rest in
      elim (List-cases k.left) [
        | inl e ↦ follow-end zero before rest k whole held e
        | inr (y, ys, e) ↦ absurd (omega (arith, size k, filled k e))
      ]
  follow-rest (suc pages) before rest whole held enough =
      let k = cut (suc l) rest in
      let (_, there) = AllHeld-split c k.taken k.left (subst (AllHeld c) (sym k.whole) held) in
      let whole' : ids ≡ (before ++ k.taken) ++ k.left =
        whole
        ∙ (ap (λ (r : List String). before ++ r) (sym k.whole)
            ∙ sym (append_assoc before k.taken k.left)) in
      elim (List-cases k.left) [
        | inl e ↦ follow-end (suc pages) before rest k whole held e
        | inr (y, ys, e) ↦ elim (List-cases k.taken) [
          | inl t ↦ absurd (omega (arith, ap length t, filled k e))
          | inr (x, xs, t) ↦ follow-more (suc pages) before rest k x y xs ys whole held e t (
              follow-rest pages (before ++ k.taken) k.left whole' there
                (omega (arith, enough, size k, filled k e)))
        ]
      ]

page_limit-suc : (limit : Option ℕ) → (l : ℕ) × (page_limit limit ≡ suc l)
unfolding page_limit
page_limit-suc none = (99, refl)
page_limit-suc (some n) = elim (Bool-cases (ltb n 1)) [
  | inl t ↦ (0, rw t refl)
  | inr f ↦ elim (Bool-cases (ltb 500 n)) [
    | inl t' ↦ (499, rw (f, t') refl)
    | inr f' ↦ (n - 1, rw (f, f') (ground arith))
  ]
]

-- Where every id of a team's list is that of a message and comes once: by any limit, a client
-- that follows the cursors of the pages from the start finds each cursor and gets every message,
-- once and in order, in no more pages than there are messages, and one.
pub follow-all :
    (c : TeamCommsState) (ids : List String) (limit : Option ℕ)
    → AllOnce ids
    → AllHeld c ids
    → follow (suc (length ids)) c ids 0 (page_limit limit) ≡ some (messages_at c ids)
follow-all c ids limit once held =
    let (l, e) = page_limit-suc limit in
    rw e (follow-rest c ids l once (length ids) [] ids refl held (omega arith))

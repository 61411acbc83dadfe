-- ===== src/Handlers/Messages/Order.antt =====
-- handlers/messages.rs: `ORDER BY created_at DESC, id DESC` on messages with unique ids.
use rsmc_engine.Base.{
  ◌≡◌, refl, Bool, false, not, List, [], ◌∷◌, ◌++◌, arith, ◌⊎◌, inl, inr, if◌then◌else◌, any,
  any-append, any_mono, any-select, any-place, any-order_by, place_first, select_all, select, place,
  order_by, Bool-cases,
}
use rsmc_engine.Models.{Message}
use rsmc_engine.Handlers.Messages.Store.{with_id, newer}
use rsmc_engine.Handlers.Messages.Threads.{AreDistinct}

-- Every message is newer than all that follow it.
abbrev pub Descends : List Message → Type 0
Descends [] = Unit
Descends (m ∷ ms) = (any (λ x. not (newer m x)) ms ≡ false) × Descends ms

abbrev pub In : Message → List Message → Type 0
In m [] = ⊥
In m (x ∷ xs) = (x ≡ m) ⊎ In m xs

place-Descends :
    (m : Message) (ms : List Message)
    → Descends ms
    → any (with_id m.id) ms ≡ false
    → Descends (place newer m ms)
place-Descends m [] d f = (refl, tt)
place-Descends m (y ∷ ys) d f = elim (Bool-cases (newer y m)) [
  | inl e ↦ rw e (
    ground (arith, any-place newer (λ x. not (newer y x)) m ys, d.0),
    place-Descends m ys d.1 (ground arith),
  )
  | inr e ↦ rw e (
    ground (
      arith,
      any_mono (λ x. not (newer y x)) (λ x. not (newer m x)) (λ x g. ground arith) ys d.0,
    ),
    d,
  )
]

pub order-Descends : (ms : List Message) → AreDistinct ms → Descends (order_by newer ms)
order-Descends [] d = tt
order-Descends (m ∷ ms) d =
    place-Descends m (order_by newer ms) (order-Descends ms d.1)
      (ground (arith, any-order_by newer (with_id m.id) ms, d.0))

pub select-AreDistinct :
    (q : Message → Bool) (ms : List Message) → AreDistinct ms → AreDistinct (select q ms)
select-AreDistinct q [] d = tt
select-AreDistinct q (m ∷ ms) d = elim (Bool-cases (q m)) [
  | inl e ↦ rw e (any-select (with_id m.id) q ms d.0, select-AreDistinct q ms d.1)
  | inr e ↦ rw e (select-AreDistinct q ms d.1)
]

-- A filter of the sorted list keeps the order.
select-place :
    (p : Message → Bool) (m : Message) (ms : List Message)
    → Descends ms
    → select p (place newer m ms) ≡ (if p m then place newer m (select p ms) else select p ms)
select-place p m [] d = ground arith
select-place p m (y ∷ ys) d = elim (Bool-cases (newer y m)) [
  | inl e ↦ ground (arith, e, select-place p m ys d.1)
  | inr e ↦
      let tail : any (λ x. newer x m) ys ≡ false =
        any_mono (λ x. not (newer y x)) (λ x. newer x m) (λ x g. ground arith) ys d.0 in
      ground (arith, e, place_first newer m (select p ys) (any-select (λ x. newer x m) p ys tail))
]

pub select-order_by :
    (p : Message → Bool) (ms : List Message)
    → AreDistinct ms
    → select p (order_by newer ms) ≡ order_by newer (select p ms)
select-order_by p [] d = refl
select-order_by p (m ∷ ms) d =
    ground (
      arith,
      select-place p m (order_by newer ms) (order-Descends ms d.1),
      select-order_by p ms d.1,
    )

-- What is older than a message of the sorted list is what follows it.
pub select-after :
    (xs : List Message) (c : Message) (ys : List Message)
    → Descends (xs ++ c ∷ ys)
    → select (newer c) (xs ++ c ∷ ys) ≡ ys
select-after [] c ys d = ground (arith, select_all (newer c) ys d.0)
select-after (x ∷ xs) c ys d =
    ground (arith, any-append (λ z. not (newer x z)) xs (c ∷ ys), d.0, select-after xs c ys d.1)

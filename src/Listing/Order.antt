-- ===== src/Listing/Order.antt =====
-- The order of a document's records is total.
use raggio.Prelude.{leb, ◌≡◌, refl, Bool, true, false, Option, none, some, arith}
use raggio.Ranking.Sorting.{TotalPreorder}
use raggio.Collection.{Record}
use raggio.Rows.{ℤ, pos, negsuc, Kind, chunk, summary}
use raggio.Listing.{int_lt, position_lt, kind_lt, then_by, document_order}

-- A strict order in which being level is transitive.
pub record WeakOrder {A : Type 0} (lt : A → A → Bool) : Type 0 where
  pub lt_asym : (x y : A) → lt x y ≡ true → lt y x ≡ false
  pub not_lt_trans : (x y z : A) → lt x y ≡ false → lt y z ≡ false → lt x z ≡ false

pub then_by-TotalPreorder :
    {A : Type 0} (lt le : A → A → Bool)
    → WeakOrder lt
    → TotalPreorder le
    → TotalPreorder (then_by lt le)
unfolding then_by
then_by-TotalPreorder lt le w o = record {
  le_total = λ x y h. ground (arith, w.lt_asym x y, w.lt_asym y x, o.le_total x y);
  le_trans = λ x y z h k. ground (
    arith,
    w.lt_asym x y,
    w.lt_asym y z,
    w.lt_asym x z,
    w.not_lt_trans z y x,
    w.not_lt_trans x z y,
    w.not_lt_trans y x z,
    w.not_lt_trans x y z,
    w.not_lt_trans z x y,
    w.not_lt_trans y z x,
    o.le_trans x y z,
  );
}

int_lt-WeakOrder : WeakOrder int_lt
unfolding int_lt
int_lt-WeakOrder = record { lt_asym = asym; not_lt_trans = negative }
  where
    asym : (x y : ℤ) → int_lt x y ≡ true → int_lt y x ≡ false
    asym (pos m) (pos n) h = ground arith
    asym (pos m) (negsuc n) h = ground arith
    asym (negsuc m) (pos n) h = refl
    asym (negsuc m) (negsuc n) h = ground arith

    negative : (x y z : ℤ) → int_lt x y ≡ false → int_lt y z ≡ false → int_lt x z ≡ false
    negative (pos m) (pos n) (pos k) h g = ground arith
    negative (pos m) (negsuc n) (pos k) h g = ground arith
    negative (pos m) y (negsuc k) h g = refl
    negative (negsuc m) (pos n) z h g = ground arith
    negative (negsuc m) (negsuc n) (pos k) h g = ground arith
    negative (negsuc m) (negsuc n) (negsuc k) h g = ground arith

position_lt-WeakOrder : WeakOrder position_lt
unfolding position_lt
position_lt-WeakOrder = record { lt_asym = asym; not_lt_trans = negative }
  where
    asym : (x y : Option ℤ) → position_lt x y ≡ true → position_lt y x ≡ false
    asym none none h = refl
    asym none (some q) h = refl
    asym (some p) none h = ground arith
    asym (some p) (some q) h = int_lt-WeakOrder.lt_asym p q h

    negative :
        (x y z : Option ℤ)
        → position_lt x y ≡ false
        → position_lt y z ≡ false
        → position_lt x z ≡ false
    negative none none z h g = g
    negative none (some q) z h g = ground arith
    negative (some p) y none h g = refl
    negative (some p) none (some r) h g = ground arith
    negative (some p) (some q) (some r) h g = int_lt-WeakOrder.not_lt_trans p q r h g

kind_lt-WeakOrder : WeakOrder kind_lt
unfolding kind_lt
kind_lt-WeakOrder = record { lt_asym = asym; not_lt_trans = negative }
  where
    asym : (x y : Kind) → kind_lt x y ≡ true → kind_lt y x ≡ false
    asym chunk y h = ground arith
    asym summary chunk h = refl
    asym summary summary h = refl

    negative : (x y z : Kind) → kind_lt x y ≡ false → kind_lt y z ≡ false → kind_lt x z ≡ false
    negative chunk y z h g = refl
    negative summary chunk z h g = ground arith
    negative summary summary z h g = g

pullback :
    {A B : Type 0} (f : B → A) (lt : A → A → Bool)
    → WeakOrder lt
    → WeakOrder (λ x y. lt (f x) (f y))
pullback f lt w = record {
  lt_asym = λ x y. w.lt_asym (f x) (f y);
  not_lt_trans = λ x y z. w.not_lt_trans (f x) (f y) (f z);
}

pub by_id-TotalPreorder : TotalPreorder (λ (r s : Record). leb r.id s.id)
by_id-TotalPreorder = record {
  le_total = λ r s h. ground arith;
  le_trans = λ r s t h k. ground arith;
}

pub document_order-TotalPreorder : TotalPreorder document_order
unfolding document_order
document_order-TotalPreorder =
    then_by-TotalPreorder _ _ (pullback (λ r. r.kind) kind_lt kind_lt-WeakOrder) (
      then_by-TotalPreorder _ _ (pullback (λ r. r.position) position_lt position_lt-WeakOrder)
        by_id-TotalPreorder)

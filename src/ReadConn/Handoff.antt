-- ===== src/ReadConn/Handoff.antt =====
-- The connection is closed exactly once, never under a reader, and never left open.
use raggio.Prelude.{
  ◌≤◌, ◌-◌, zero, suc, refl, sym, subst, ◌∙◌, ◌⊎◌, ◌≢◌, ℕ, ◌+◌, Bool, true, false, ◌≡◌, arith,
}
use raggio.ReadConn.{
  Owner, outside, inside, left, saw_closing, owner_closes, Sweep, marked, sweep_closes, gave_up,
  finished, Conn, enter, leave, load_closing, try_lock, owner_close, acquire, mark, try_again,
  sweep_close, Step, owner_enters, owner_leaves, owner_loads, owner_tries, owner_ends, sweep_begins,
  sweep_acquires, sweep_marks, sweep_tries, sweep_ends, Reach, here, next, IsSwept, owner_next,
  run_owner,
}

abbrev owner_holds : Owner → ℕ
owner_holds inside = 1
owner_holds owner_closes = 1
owner_holds _ = 0

abbrev sweep_holds : Sweep → ℕ
sweep_holds sweep_closes = 1
sweep_holds _ = 0

abbrev has_marked : Sweep → Bool
has_marked marked = true
has_marked gave_up = true
has_marked _ = false

abbrev as_number : Bool → ℕ
as_number true = 1
as_number false = 0

-- The owner is on its way to `lock`, and will load `closing` or has loaded it.
abbrev will_try : Owner → Bool
will_try outside = false
will_try _ = true

record IsValid (c : Conn) : Type 0 where
  held : as_number c.lock ≡ owner_holds c.owner + sweep_holds c.sweep
  once : c.closes ≡ as_number c.closed
  open_inside : c.owner ≡ inside → c.closed ≡ false
  stored : has_marked c.sweep ≡ true → c.closing ≡ true
  handed : c.sweep ≡ gave_up → c.closed ≡ false → will_try c.owner ≡ true
  done : c.sweep ≡ finished → c.closed ≡ true

Step-IsValid : {c c' : Conn} → Step c c' → IsValid c → IsValid c'
unfolding enter leave load_closing try_lock owner_close acquire mark try_again sweep_close
Step-IsValid (owner_enters h l) v = ground arith
Step-IsValid (owner_leaves h) v = ground arith
Step-IsValid (owner_loads h) v = ground arith
Step-IsValid (owner_tries h) v = ground arith
Step-IsValid (owner_ends h) v = ground arith
Step-IsValid (sweep_begins h) v = ground arith
Step-IsValid (sweep_acquires h l) v = ground arith
Step-IsValid (sweep_marks h) v = ground arith
Step-IsValid (sweep_tries h) v = ground arith
Step-IsValid (sweep_ends h) v = ground arith

Reach-IsValid : {c : Conn} → Reach c → IsValid c
Reach-IsValid here = ground arith
Reach-IsValid (next r s) = Step-IsValid s (Reach-IsValid r)

-- In every reachable state the database connection has been closed at most once, and not at all
-- while its owner is inside a guarded section.
pub closed_once : {c : Conn} → Reach c → (c.closes ≡ 0) ⊎ ((c.closes ≡ 1) × (c.owner ≢ inside))
closed_once r = let v = Reach-IsValid r in ground arith

-- Once the sweep has returned, whether True or False, and the owner is outside, the connection has
-- been closed exactly once: neither side can miss the other.
pub swept_is_closed : {c : Conn} → Reach c → IsSwept c → c.owner ≡ outside → c.closes ≡ 1
swept_is_closed r s h = let v = Reach-IsValid r in ground arith

Reach-owner_next : {c : Conn} → Reach c → Reach (owner_next c)
unfolding owner_next
Reach-owner_next {c} r = by_place c.owner refl
  where
    by_place :
        (o : Owner)
        → c.owner ≡ o
        → Reach (elim o [
          | outside ↦ c
          | inside ↦ leave c
          | left ↦ load_closing c
          | saw_closing ↦ try_lock c
          | owner_closes ↦ owner_close c
        ])
    by_place outside e = r
    by_place inside e = next r (owner_leaves e)
    by_place left e = next r (owner_loads e)
    by_place saw_closing e = next r (owner_tries e)
    by_place owner_closes e = next r (owner_ends e)

Reach-run_owner : (n : ℕ) {c : Conn} → Reach c → Reach (run_owner n c)
unfolding run_owner
Reach-run_owner zero r = r
Reach-run_owner (suc n) r = Reach-run_owner n (Reach-owner_next r)

-- How many steps the owner is from the outside.
abbrev steps_left : Owner → ℕ
steps_left outside = 0
steps_left owner_closes = 1
steps_left saw_closing = 2
steps_left left = 3
steps_left inside = 4

sweep-owner_next : (c : Conn) → (owner_next c).sweep ≡ c.sweep
unfolding owner_next leave load_closing try_lock owner_close
sweep-owner_next c = ground arith

steps_left-owner_next : (c : Conn) → steps_left (owner_next c).owner ≤ steps_left c.owner - 1
unfolding owner_next leave load_closing try_lock owner_close
steps_left-owner_next c = ground arith

sweep-run_owner : (n : ℕ) (c : Conn) → (run_owner n c).sweep ≡ c.sweep
unfolding run_owner
sweep-run_owner zero c = refl
sweep-run_owner (suc n) c = sweep-run_owner n (owner_next c) ∙ sweep-owner_next c

owner-run_owner : (n : ℕ) (c : Conn) → steps_left c.owner ≤ n → (run_owner n c).owner ≡ outside
unfolding run_owner
owner-run_owner zero c h = ground arith
owner-run_owner (suc n) c h =
    owner-run_owner n (owner_next c) (omega (arith, h, steps_left-owner_next c))

-- Once the sweep has returned, whether True or False, the owner's own next steps close the connection
-- if it is still open: wherever the owner is, four of them bring it outside, with the connection closed
-- exactly once.
pub exit_closes :
    {c : Conn}
    → Reach c
    → IsSwept c
    → ((run_owner 4 c).closes ≡ 1) × ((run_owner 4 c).owner ≡ outside)
exit_closes {c} r s =
    let out = owner-run_owner 4 c (steps_bound c.owner) in
    (swept_is_closed (Reach-run_owner 4 r) (subst IsSweptAt (sym (sweep-run_owner 4 c)) s) out, out)
  where
    IsSweptAt : Sweep → Type 0
    IsSweptAt w = (w ≡ gave_up) ⊎ (w ≡ finished)

    steps_bound : (o : Owner) → steps_left o ≤ 4
    steps_bound o = ground arith

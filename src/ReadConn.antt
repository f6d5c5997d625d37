-- ===== src/ReadConn.antt =====
-- `_ReadConn` of src/raggio/store.py: one thread's read connection, and the closing sweep.
--
-- The owner (the thread that reads) and the sweep (`close_when_idle`, once for a connection) are two
-- program counters over the fields `lock`, `closed` and `closing`. `closes` counts the calls of
-- `self.db.close()`. A step is what one thread does under `lock` or under `state`, or one try of
-- `lock`; the two threads interleave in any order. The interrupt of a running statement changes none
-- of these fields. An exception of the section leaves it like a return does.
pub mod Handoff
mod Examples
use raggio.Prelude.{ℕ, zero, suc, ◌+◌, Bool, true, false, ◌≡◌, ◌⊎◌, if◌then◌else◌}

-- `left` has released `lock` and not yet loaded `closing`; `saw_closing` has loaded true.
pub data Owner : Type 0 where
  outside inside left saw_closing owner_closes : Owner

-- `marked` has stored `closing`; `gave_up` and `finished` have returned False and True.
pub data Sweep : Type 0 where
  not_started acquiring marked sweep_closes gave_up finished : Sweep

pub record Conn : Type 0 where
  pub owner : Owner
  pub sweep : Sweep
  pub lock : Bool
  pub closed : Bool
  pub closing : Bool
  pub closes : ℕ

abbrev pub fresh : Conn
fresh = record {
  owner = outside;
  sweep = not_started;
  lock = false;
  closed = false;
  closing = false;
  closes = 0;
}

-- `if not self.closed: self.closed = True; self.db.close()`, then the release of `lock`.
pub close_and_release : Conn → Conn
close_and_release c =
    if c.closed
    then record c { lock = false }
    else record c { closed = true; closes = c.closes + 1; lock = false }

-- `__enter__`, once `lock` is free: the section is entered, or the closed error is raised.
pub enter : Conn → Conn
enter c = if c.closed then c else record c { owner = inside; lock = true }

-- `__exit__`, in the three pieces that another thread can come between.
pub leave : Conn → Conn
leave c = record c { owner = left; lock = false }

pub load_closing : Conn → Conn
load_closing c =
    if c.closing then record c { owner = saw_closing } else record c { owner = outside }

pub try_lock : Conn → Conn
try_lock c =
    if c.lock then record c { owner = outside } else record c { owner = owner_closes; lock = true }

pub owner_close : Conn → Conn
unfolding close_and_release
owner_close c = let c' = close_and_release c in record c' { owner = outside }

-- What the owner's thread does next, by where it is. From outside it does nothing of its own accord.
pub owner_next : Conn → Conn
unfolding leave load_closing try_lock owner_close
owner_next c = elim c.owner [
  | outside ↦ c
  | inside ↦ leave c
  | left ↦ load_closing c
  | saw_closing ↦ try_lock c
  | owner_closes ↦ owner_close c
]

pub run_owner : ℕ → Conn → Conn
unfolding owner_next
run_owner zero c = c
run_owner (suc n) c = run_owner n (owner_next c)

-- `close_when_idle`: the lock is acquired, or the deadline passes.
pub acquire : Conn → Conn
acquire c = record c { sweep = sweep_closes; lock = true }

pub mark : Conn → Conn
mark c = record c { sweep = marked; closing = true }

pub try_again : Conn → Conn
try_again c =
    if c.lock then record c { sweep = gave_up } else record c { sweep = sweep_closes; lock = true }

pub sweep_close : Conn → Conn
unfolding close_and_release
sweep_close c = let c' = close_and_release c in record c' { sweep = finished }

pub data Step (c : Conn) : Conn → Type 0 where
  owner_enters : c.owner ≡ outside → c.lock ≡ false → Step c (enter c)
  owner_leaves : c.owner ≡ inside → Step c (leave c)
  owner_loads : c.owner ≡ left → Step c (load_closing c)
  owner_tries : c.owner ≡ saw_closing → Step c (try_lock c)
  owner_ends : c.owner ≡ owner_closes → Step c (owner_close c)
  sweep_begins : c.sweep ≡ not_started → Step c (record c { sweep = acquiring })
  sweep_acquires : c.sweep ≡ acquiring → c.lock ≡ false → Step c (acquire c)
  sweep_marks : c.sweep ≡ acquiring → Step c (mark c)
  sweep_tries : c.sweep ≡ marked → Step c (try_again c)
  sweep_ends : c.sweep ≡ sweep_closes → Step c (sweep_close c)

pub data Reach : Conn → Type 0 where
  here : Reach fresh
  next : {c c' : Conn} → Reach c → Step c c' → Reach c'

-- The sweep has returned to its caller.
abbrev pub IsSwept : Conn → Type 0
IsSwept c = (c.sweep ≡ gave_up) ⊎ (c.sweep ≡ finished)

-- ===== src/ReadConn/Examples.antt =====
-- A connection of `_ReadConn` whose owner reads on while the sweep gives up (src/raggio/store.py).
use raggio.Prelude.{◌≡◌, refl, arith, inl}
use raggio.ReadConn.{
  Conn, fresh, enter, leave, load_closing, try_lock, owner_close, mark, try_again, gave_up,
  acquiring, inside, outside, IsSwept, run_owner, owner_enters, owner_leaves, owner_loads,
  owner_tries, owner_ends, sweep_begins, sweep_marks, sweep_tries, Reach, here, next,
}
use raggio.ReadConn.Handoff.{swept_is_closed, exit_closes}

abbrev abandoned : Conn
abandoned = try_again (mark (record (enter fresh) { sweep = acquiring }))

abandoned_reached : Reach abandoned
unfolding enter mark try_again
abandoned_reached =
    next (next (next (next here (owner_enters refl refl)) (sweep_begins refl)) (sweep_marks refl))
      (sweep_tries refl)

abandoned_gave_up : (abandoned.sweep ≡ gave_up) × (abandoned.owner ≡ inside)
unfolding enter mark try_again
abandoned_gave_up = (refl, refl)

-- Then the owner leaves.
abbrev left_behind : Conn
left_behind = owner_close (try_lock (load_closing (leave abandoned)))

left_behind_reached : Reach left_behind
unfolding enter mark try_again leave load_closing try_lock
left_behind_reached =
    next
      (next (next (next abandoned_reached (owner_leaves refl)) (owner_loads refl))
        (owner_tries refl))
      (owner_ends refl)

left_behind-IsSwept : IsSwept left_behind × (left_behind.owner ≡ outside)
unfolding enter mark try_again leave load_closing try_lock owner_close
left_behind-IsSwept = ground arith

swept_is_closed_example : left_behind.closes ≡ 1
swept_is_closed_example =
    swept_is_closed left_behind_reached left_behind-IsSwept.0 left_behind-IsSwept.1

exit_closes_example :
    ((run_owner 4 abandoned).closes ≡ 1) × ((run_owner 4 abandoned).owner ≡ outside)
exit_closes_example = exit_closes abandoned_reached (inl abandoned_gave_up.0)

-- ===== src/Tests/Table.antt =====
-- server/src/handles.rs on two sessions with a few calls.
use quicfs.Base.{
  ℕ, ◌+◌, ◌*◌, ◌%◌, ◌-◌, ◌<◌, ◌≤◌, ◌≡◌, ◌≢◌, ◌⊎◌, ◌==◌, if◌then◌else◌, refl, none, some, List, [],
  ◌∷◌, arith,
}
use quicfs.Server.Handles.{
  OpenHandle, HandleTable, u32_mod, with_limit, try_insert, remove, get_handle, len,
}
use quicfs.Server.Handles.Ids.{
  Call, open_handle, close_handle, run, opens, IsValid, session-IsValid, open_fresh,
  no_cross_session, released_stays_stale,
}
use quicfs.Server.Handles.Carry.{churn, epoch_carries}

abbrev pub entry : OpenHandle
entry = record { path = []; flags = 0; file = 3; ino_key = 5 }

abbrev pub calls : List Call
calls = open_handle entry ∷ []

counts : opens calls ≡ 1
unfolding opens
counts = refl

few : 1 + opens calls < u32_mod
few = omega (arith, counts)

abbrev pub first : HandleTable
first = run calls (with_limit 7 2)

pub finds : get_handle (7 * u32_mod + 1) first ≡ some entry
unfolding get_handle run quicfs.Server.Handles.Ids.step with_limit try_insert quicfs.Base.insert
    quicfs.Base.lookup
finds = refl

session-IsValid_example : IsValid (7 % u32_mod) (1 + opens calls) first
session-IsValid_example = session-IsValid 7 2 calls few

open_fresh_example :
    ((2 ≤ len first) × (try_insert entry first ≡ (first, none)))
    ⊎ ((id : ℕ) × (len first < 2)
        × ((try_insert entry first).1 ≡ some id)
        × (get_handle id first ≡ none)
        × ((j : ℕ)
            → get_handle j (try_insert entry first).0
              ≡ (if id == j then some entry else get_handle j first)))
open_fresh_example = open_fresh 7 2 calls entry few

no_cross_session_example : get_handle (7 * u32_mod + 1) (run calls (with_limit 8 2)) ≡ none
no_cross_session_example =
    no_cross_session 7 8 2 2 calls calls (7 * u32_mod + 1) entry few few (λ e. omega arith) finds

pub few_more : 1 + opens calls + opens calls < u32_mod
few_more = omega (arith, counts)

released_stays_stale_example :
    get_handle (7 * u32_mod + 1) (run calls (remove (7 * u32_mod + 1) first).0) ≡ none
released_stays_stale_example =
    released_stays_stale 7 2 calls calls (7 * u32_mod + 1) entry few_more finds

epoch_carries_example :
    (try_insert entry (churn (u32_mod - 1) entry (with_limit 7 2))).1
    ≡ some ((7 % u32_mod + 1) * u32_mod)
epoch_carries_example =
    epoch_carries 7 2 (u32_mod - 1) entry (omega arith) (omega arith) (omega arith)

-- ===== src/Server/Handles/Carry.antt =====
-- server/src/handles.rs: the counter counts every open of a session, not only those that are still
-- open, so that it can carry into the epoch.
use quicfs.Base.{ℕ, zero, suc, ◌+◌, ◌*◌, ◌%◌, ◌<◌, ◌≡◌, ap, ◌∙◌, some, [], arith, insert, without}
use quicfs.Server.Handles.{
  OpenHandle, HandleTable, u64_mod, u32_mod, with_limit, try_insert, remove,
}

-- A client that opens a file and releases it, `n` times over.
unfoldable pub churn : ℕ → OpenHandle → HandleTable → HandleTable
churn zero h t = t
churn (suc n) h t = let opened = try_insert h t in churn n h (remove t.counter opened.0).0

abbrev bare : ℕ → ℕ → HandleTable
bare counter max_handles = record { counter = counter; max_handles = max_handles; inner = [] }

churn-once :
    (c m : ℕ) (h : OpenHandle)
    → 0 < m
    → c + 1 < u64_mod
    → (remove c (try_insert h (bare c m)).0).0 ≡ bare (c + 1) m
unfolding remove try_insert insert without
churn-once c m h hm hc = let fits : (c + 1) % u64_mod ≡ c + 1 = omega arith in ground (arith, fits)

churn-bare :
    (n c m : ℕ) (h : OpenHandle) → 0 < m → c + n < u64_mod → churn n h (bare c m) ≡ bare (c + n) m
unfolding churn
churn-bare zero c m h hm hc = ap (λ (k : ℕ). bare k m) (omega arith)
churn-bare (suc n) c m h hm hc =
    ap (churn n h) (churn-once c m h hm (omega arith))
    ∙ churn-bare n (c + 1) m h hm (omega arith)
    ∙ ap (λ (k : ℕ). bare k m) (omega arith)

-- After 2 ^ 32 - 1 opens, each released at once, the next handle of the session has the number
-- whose epoch is the session's plus one, whatever the limit on open handles.
pub epoch_carries :
    (uuid max_handles n : ℕ) (h : OpenHandle)
    → 0 < max_handles
    → uuid % u32_mod + 1 < u32_mod
    → n + 1 ≡ u32_mod
    → (try_insert h (churn n h (with_limit uuid max_handles))).1
      ≡ some ((uuid % u32_mod + 1) * u32_mod)
unfolding with_limit try_insert
epoch_carries uuid max_handles n h hm he hn =
    let c : ℕ = (uuid % u32_mod) * u32_mod + 1 in
    let reached : churn n h (bare c max_handles) ≡ bare (c + n) max_handles =
      churn-bare n c max_handles h hm (omega arith) in
    rw reached (ground arith)

-- ===== src/Tests/Paths.antt =====
-- server/src/sanitize.rs on the path `/a/b`, in a file system without links.
use quicfs.Base.{ℕ, ◌≤◌, ◌≡◌, refl, true, false, some, List, [], ◌∷◌, ◌++◌, arith, length, All}
use quicfs.Server.Sanitize.{Name, FilePath, Fs, ok, resolve}
use quicfs.Server.Sanitize.Sound.{Confined, NoLinks, inside, resolve-Confined}
use quicfs.Server.Sanitize.Complete.{Clean, to_text, resolve-to_text}

abbrev pub linkless : Fs
linkless = record { is_symlink = λ p. false; exists = λ p. true; canonicalize = λ p. some p }

abbrev pub export : FilePath
export = (b's' ∷ []) ∷ []

abbrev pub a_b : List Name
a_b = (b'a' ∷ []) ∷ (b'b' ∷ []) ∷ []

resolves : resolve linkless export (b'/' ∷ b'a' ∷ b'/' ∷ b'b' ∷ []) ≡ ok (export ++ a_b)
unfolding resolve
resolves = refl

resolve-Confined_example : Confined linkless export (b'/' ∷ b'a' ∷ b'/' ∷ b'b' ∷ []) (export ++ a_b)
resolve-Confined_example =
    resolve-Confined linkless export (b'/' ∷ b'a' ∷ b'/' ∷ b'b' ∷ []) (export ++ a_b) resolves

letter-Clean : (c : ℕ) → b'a' ≤ c → Clean (c ∷ [])
letter-Clean c h = (
  ((λ e. omega arith, tt), (λ e. omega arith, tt)),
  (λ e. cc, λ e. ground arith, λ e. cc, omega arith),
)

a_b-Clean : All Clean a_b
a_b-Clean = (letter-Clean b'a' (omega arith), (letter-Clean b'b' (omega arith), tt))

short : length (to_text a_b) ≤ 4096
unfolding to_text
short = omega arith

links : NoLinks linkless export a_b
unfolding quicfs.Server.Sanitize.Sound.inner_dirs
links = (refl, tt)

within : inside linkless export (export ++ a_b) ≡ true
unfolding quicfs.Server.Sanitize.starts_with
within = refl

resolve-to_text_example : resolve linkless export (to_text a_b) ≡ ok (export ++ a_b)
resolve-to_text_example =
    resolve-to_text linkless export a_b a_b-Clean (omega arith) short links within

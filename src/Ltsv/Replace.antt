-- ===== src/Ltsv/Replace.antt =====
-- ltsv/ltsv.go: `replaceBytes`, and `Replacer` beside it.
use fluent_agent_hydra.Prelude.{ℕ, ◌≡◌, refl, [], ◌∷◌, ◌++◌, Bytes, ◌==◌, if◌then◌else◌, arith}
use fluent_agent_hydra.Ltsv.{escape}

-- `bytes.Replace(b, []byte{old}, new, -1)`
unfoldable replace : Bytes → ℕ → Bytes → Bytes
replace [] old new = []
replace (c ∷ b) old new = (if c == old then new else c ∷ []) ++ replace b old new

unfoldable pub replace_bytes : Bytes → Bytes
unfolding replace
replace_bytes b =
    let b₁ = replace b b'\n' (b'\\' ∷ b'n' ∷ []) in
    let b₂ = replace b₁ b'\r' (b'\\' ∷ b'r' ∷ []) in replace b₂ b'\t' (b'\\' ∷ b't' ∷ [])

-- The three replacements one behind the other are the one pass of `Replacer`: none of them finds
-- a byte that another has written.
pub replace_bytes-escape : (b : Bytes) → replace_bytes b ≡ escape b
unfolding replace_bytes replace escape
replace_bytes-escape [] = refl
replace_bytes-escape (c ∷ b) = ground (arith, replace_bytes-escape b)

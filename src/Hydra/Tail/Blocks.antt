-- ===== src/Hydra/Tail/Blocks.antt =====
-- hydra/file.go: one block of a tailed file, cut into whole lines and a rest.
use fluent_agent_hydra.Prelude.{
  ℕ, suc, ◌+◌, ◌-◌, ◌≡◌, refl, ap, ◌∙◌, inl, inr, true, Option, none, some, List, [], ◌∷◌, ◌++◌,
  append_assoc, arith, Bool-cases, Option-cases, length, take, drop, All, Bytes, Lacks, add64,
}
use fluent_agent_hydra.Prelude.{
  split, terminated, terminated-split, split-All-Lacks, last_index, last_index-none,
  last_index-some,
}
use fluent_agent_hydra.Hydra.Tail.{File, ends_in_newline, read_block}

-- The lines of the buffer that a round sends.
abbrev pub sent_lines : Option Bytes → List Bytes
sent_lines none = []
sent_lines (some buf) = split b'\n' buf

ends_in_newline-some :
    (s : Bytes) → ends_in_newline s ≡ true → s ≡ take (length s - 1) s ++ (b'\n' ∷ [])
unfolding ends_in_newline
ends_in_newline-some [] h = cc
ends_in_newline-some (c ∷ []) h = ground arith
ends_in_newline-some (c ∷ d ∷ s) h =
    let ih : d ∷ s ≡ take (length (d ∷ s) - 1) (d ∷ s) ++ (b'\n' ∷ []) =
      ends_in_newline-some (d ∷ s) h in
    let n : length (c ∷ d ∷ s) - 1 ≡ suc (length (d ∷ s) - 1) = omega arith in
    rw n (ap (λ t. c ∷ t) ih)

Lacks-append : (c : ℕ) (s t : Bytes) → Lacks c s → Lacks c t → Lacks c (s ++ t)
Lacks-append c [] t hs ht = ht
Lacks-append c (x ∷ s) t hs ht = (hs.0, Lacks-append c s t hs.1 ht)

-- The lines up to the last newline, and the text behind it.
cut_at_last :
    (cont front back : Bytes)
    → cont ++ (front ++ (b'\n' ∷ back)) ≡ terminated b'\n' (split b'\n' (cont ++ front)) ++ back
cut_at_last cont front back = rw (terminated-split b'\n' (cont ++ front)) (simp append_assoc)

pub sent_lines-Lacks : (buf : Option Bytes) → All (Lacks b'\n') (sent_lines buf)
sent_lines-Lacks none = tt
sent_lines-Lacks (some buf) = split-All-Lacks b'\n' buf

-- A round cuts what was left over from before and the block into whole lines, which it sends,
-- and a new rest, which holds no newline. Nothing else of the text is kept or lost.
pub read_block_lem :
    (f : File) (block : Bytes)
    → Lacks b'\n' f.cont_buf
    → let (f', send_buf) = read_block f block in
      Lacks b'\n' f'.cont_buf
      × (f.cont_buf ++ block ≡ terminated b'\n' (sent_lines send_buf) ++ f'.cont_buf)
      × (f'.position ≡ add64 f.position (length block))
unfolding read_block
read_block_lem f block h = elim (Bool-cases (ends_in_newline block)) [
  | inl e ↦ rw e (
    tt,
    ap (λ b. f.cont_buf ++ b) (ends_in_newline-some block e)
        ∙ cut_at_last f.cont_buf (take (length block - 1) block) [],
    refl,
  )
  | inr e ↦ rw e (elim (Option-cases (last_index b'\n' block)) [
    | inl l ↦
        rw l (Lacks-append b'\n' f.cont_buf block h (last_index-none b'\n' block l), refl, refl)
    | inr (i, l) ↦
        let (spell, lacks) = last_index-some b'\n' block i l in
        let one : i + 1 ≡ suc i = omega arith in
        rw (l, one)
          (
            lacks,
            ap (λ b. f.cont_buf ++ b) spell
                ∙ cut_at_last f.cont_buf (take i block) (drop (suc i) block),
            refl,
          )
  ])
]

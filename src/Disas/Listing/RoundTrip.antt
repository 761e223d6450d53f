-- ===== src/Disas/Listing/RoundTrip.antt =====
-- Assembling a listing gives the ROM back.
use chip_eight_jit.Common.{
  ℕ, suc, ◌+◌, ◌*◌, ◌≤◌, ◌<◌, ◌≡◌, refl, ◌∙◌, ap, Bool, List, [], ◌∷◌, ◌++◌, arith, Array, Below,
  subst,
}
use chip_eight_jit.Asm.Result.{ok, ◌>>=◌}
use chip_eight_jit.Asm.Values.{Symbol, lookup}
use chip_eight_jit.Asm.Passes.{Pass, first, second, origin, assemble}
use chip_eight_jit.Disas.Analysis.{Flags}
use chip_eight_jit.Disas.Analysis.Leaders.{Placed}
use chip_eight_jit.Disas.Printing.{Style}
use chip_eight_jit.Disas.Printing.Reads.Cases.{asm_style, Labelled}
use chip_eight_jit.Disas.Listing.{lines_from, label_lines}
use chip_eight_jit.Disas.Listing.Labels.{
  label_of, labels_of-last, labels_of-Fresh, length-labels_of, labels_of, Fresh, lookup-labels_of,
}
use chip_eight_jit.Disas.Listing.Passes.{at_pc, first-labelled, second-labelled}
use chip_eight_jit.Asm.Passes.Sizes.{lookup-append}
use chip_eight_jit.Disas.Listing.Loops.{double, bytes_from, first_words, second_words}
use chip_eight_jit.Disas.Listing.Trailing.{byte_line, first-byte_line, second-byte_line}

labels_known :
    (leader : Flags) (size count : ℕ)
    → Placed leader size
    → size ≤ 2 * count
    → count ≤ 0x700
    → Labelled (labels_of leader count 0x200) leader
labels_known leader size count placed fits room a on =
    let (h, k, e) = placed a on in
    lookup-labels_of leader count 0x200 a h (omega arith) (omega arith) (omega arith) on

first_end : (p : Pass) → first p [] ≡ ok p
unfolding first
first_end p = refl

second_end : (all : List Symbol) (pc : ℕ) → second all pc [] ≡ ok []
unfolding second
second_end all pc = refl

nothing-Fresh : Fresh [] 0x200
unfolding lookup
nothing-Fresh a h k = refl

module _ (leader reach : Flags) (decode : Bool) (memory : Array) (below : Below 0x100 memory) where
  abbrev t : Style
  t = asm_style leader reach

  pub even_listing :
      (n : ℕ)
      → Placed leader (2 * n)
      → n ≤ 0x700
      → assemble (lines_from t decode memory n 0x200 ++ [])
        ≡ ok (bytes_from memory (double n) 0x200 ++ [])
  unfolding assemble
  even_listing n placed room =
      let all = labels_of leader n 0x200 in
      let known = labels_known leader (2 * n) n placed (omega arith) room in
      let f : first (at_pc [] 0x200) (lines_from t decode memory n 0x200 ++ [])
          ≡ ok (at_pc all (0x200 + 2 * n)) =
        first_words leader reach decode memory below all [] n 0x200 [] known (λ name v h. h)
          nothing-Fresh (omega arith) (omega arith)
        ∙ first_end (at_pc all (0x200 + 2 * n)) in
      let g =
        second_words leader reach decode memory below all n 0x200 [] [] known
          (second_end all (0x200 + 2 * n)) in
      ap (λ r. r >>= λ p. second p.symbols origin (lines_from t decode memory n 0x200 ++ [])) f ∙ g

  pub odd_listing :
      (n : ℕ)
      → Placed leader (2 * n + 1)
      → n < 0x700
      → assemble (
          lines_from t decode memory n 0x200
          ++ (label_lines t (0x200 + 2 * n) ++ byte_line (memory (0x200 + 2 * n)) ∷ []))
        ≡ ok (bytes_from memory (double n) 0x200 ++ memory (0x200 + 2 * n) ∷ [])
  unfolding assemble
  odd_listing n placed room =
      let pc = 0x200 + 2 * n in
      let v = memory pc in
      let words = labels_of leader n 0x200 in
      let all = words ++ label_of leader pc in
      let last = label_lines t pc ++ byte_line v ∷ [] in
      let known : Labelled all leader =
        subst (λ u. Labelled u leader) (labels_of-last leader n 0x200)
          (labels_known leader (2 * n + 1) (suc n) placed (omega arith) (omega arith)) in
      let f : first (at_pc [] 0x200) (lines_from t decode memory n 0x200 ++ last)
          ≡ ok (at_pc all (pc + 1)) =
        first_words leader reach decode memory below all [] n 0x200 last known
          (λ name v h. lookup-append words (label_of leader pc) name v h) nothing-Fresh
          (omega arith) (omega arith)
        ∙ first-labelled leader reach words pc (byte_line v ∷ [])
            (labels_of-Fresh leader n 0x200 (omega arith) pc (omega arith) (omega arith))
            (omega (arith, length-labels_of leader n 0x200)) (omega arith)
        ∙ first-byte_line all pc v (below pc) (omega arith) in
      let g = second_words leader reach decode memory below all n 0x200 last (v ∷ []) known (
        second-labelled leader reach all pc (byte_line v ∷ []) (v ∷ [])
          (second-byte_line all pc v (below pc))) in
      ap (λ r. r >>= λ p. second p.symbols origin (lines_from t decode memory n 0x200 ++ last)) f
      ∙ g

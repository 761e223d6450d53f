-- ===== src/Disas/Listing/Whole.antt =====
-- Assembling what `main` of src/disas.c prints gives the ROM back.
use mathlib.Core.List.{append-nil}
use chip_eight_jit.Common.{
  ℕ, zero, suc, ◌+◌, ◌-◌, ◌*◌, ◌/◌, ◌%◌, ◌≤◌, ◌≡◌, refl, sym, ◌∙◌, ap, Bool, true, false, some,
  List, [], ◌∷◌, ◌++◌, arith, ◌==◌, Bool-cases, inl, inr, Array, Below, subst,
}
use chip_eight_jit.Disas.Opcodes.{rom_start}
use chip_eight_jit.Asm.Result.{ok}
use chip_eight_jit.Asm.Lexer.{Text}
use chip_eight_jit.Asm.Passes.{first, second, assemble}
use chip_eight_jit.Disas.Analysis.{Flags, analyze, glue_unreachable}
use chip_eight_jit.Disas.Descent.{Map, descend}
use chip_eight_jit.Disas.Descent.Ends.{descend-ends}
use chip_eight_jit.Disas.Analysis.Leaders.{Placed, glue_unreachable-Placed}
use chip_eight_jit.Disas.Printing.{Style}
use chip_eight_jit.Disas.Printing.Reads.Cases.{asm_style}
use chip_eight_jit.Disas.Listing.{
  lines_from, trailing_lines, listing, style_of, disassembly, label_lines,
}
use chip_eight_jit.Disas.Listing.Loops.{double, double_lem, bytes_from}
use chip_eight_jit.Disas.Listing.Trailing.{byte_line}
use chip_eight_jit.Disas.Listing.RoundTrip.{even_listing, odd_listing}

bytes_from-last :
    (memory : Array) (n pc : ℕ)
    → bytes_from memory n pc ++ memory (pc + n) ∷ [] ≡ bytes_from memory (suc n) pc
bytes_from-last memory zero pc = ap (λ a. memory a ∷ []) (omega arith)
bytes_from-last memory (suc n) pc =
    ap (λ u. memory pc ∷ u)
      (ap (λ a. bytes_from memory n (pc + 1) ++ memory a ∷ []) (omega arith)
        ∙ bytes_from-last memory n (pc + 1))

module _ (leader reach : Flags) (decode : Bool) (memory : Array) (size : ℕ) where
  abbrev u : Style
  u = asm_style leader reach

  abbrev n : ℕ
  n = size / 2

  trailing_even : (size % 2 == 0) ≡ true → trailing_lines u memory size ≡ []
  unfolding trailing_lines
  trailing_even e = rw (e) refl

  trailing_odd :
      (size % 2 == 0) ≡ false
      → trailing_lines u memory size
        ≡ label_lines u (0x200 + 2 * n) ++ byte_line (memory (0x200 + 2 * n)) ∷ []
  unfolding trailing_lines
  trailing_odd o = let pc : rom_start + size - 1 ≡ 0x200 + 2 * n = ground arith in rw (o, pc) refl

  listing_even :
      Below 0x100 memory
      → Placed leader size
      → size ≤ 0xe00
      → (size % 2 == 0) ≡ true
      → assemble (listing u decode memory size) ≡ ok (bytes_from memory size 0x200)
  unfolding listing
  listing_even below placed room e =
      let whole : size ≡ 2 * n = ground arith in
      ap (λ l. assemble (lines_from u decode memory n 0x200 ++ l)) (trailing_even e)
      ∙ even_listing leader reach decode memory below n (subst (Placed leader) whole placed)
          (omega arith)
      ∙ ap ok (append-nil (bytes_from memory (double n) 0x200))
      ∙ ap (λ k. ok (bytes_from memory k 0x200)) (double_lem n ∙ sym whole)

  listing_odd :
      Below 0x100 memory
      → Placed leader size
      → size ≤ 0xe00
      → (size % 2 == 0) ≡ false
      → assemble (listing u decode memory size) ≡ ok (bytes_from memory size 0x200)
  unfolding listing
  listing_odd below placed room o =
      let whole : size ≡ 2 * n + 1 = ground arith in
      let all : suc (2 * n) ≡ size = omega arith in
      ap (λ l. assemble (lines_from u decode memory n 0x200 ++ l)) (trailing_odd o)
      ∙ odd_listing leader reach decode memory below n (subst (Placed leader) whole placed)
          (omega arith)
      ∙ ap (λ k. ok (bytes_from memory k 0x200 ++ memory (0x200 + 2 * n) ∷ [])) (double_lem n)
      ∙ ap ok (bytes_from-last memory (2 * n) 0x200)
      ∙ ap (λ k. ok (bytes_from memory k 0x200)) all

  pub assemble-listing :
      Below 0x100 memory
      → Placed leader size
      → size ≤ 0xe00
      → assemble (listing u decode memory size) ≡ ok (bytes_from memory size 0x200)
  assemble-listing below placed room = elim (Bool-cases (size % 2 == 0)) [
    | inl e ↦ listing_even below placed room e
    | inr o ↦ listing_odd below placed room o
  ]

bytes_of_nothing :
    (u : Style) (decode : Bool) (memory : Array) → assemble (listing u decode memory 0) ≡ ok []
unfolding assemble listing lines_from trailing_lines first second
bytes_of_nothing u decode memory = refl

disassembly_of :
    (decode : Bool) (memory : Array) (size : ℕ) (m : Map)
    → descend memory size ≡ some m
    → disassembly true decode memory size
      ≡ some (listing (style_of true memory size m) decode memory size)
unfolding disassembly
disassembly_of decode memory size m e = ground (arith, e)

-- For every ROM that fits in the memory, whatever its bytes are and whether or not unreachable words are
-- decoded, the disassembler ends with a listing for the assembler, and the assembler makes exactly the
-- bytes of the ROM of it.
pub assemble-disassembly :
    (decode : Bool) (memory : Array) (size : ℕ)
    → Below 0x100 memory
    → size ≤ 0xe00
    → (lines : List Text) × (disassembly true decode memory size ≡ some lines)
      × (assemble lines ≡ ok (bytes_from memory size 0x200))
assemble-disassembly decode memory zero below room =
    let (m, ended) = descend-ends memory 0 room in
    (
      listing (style_of true memory 0 m) decode memory 0,
      disassembly_of decode memory 0 m ended,
      bytes_of_nothing _ decode memory,
    )
assemble-disassembly decode memory (suc size) below room =
    let (m, ended) = descend-ends memory (suc size) room in
    let leader = glue_unreachable m.reach (suc size) (analyze memory (suc size)) in
    (
      listing (style_of true memory (suc size) m) decode memory (suc size),
      disassembly_of decode memory (suc size) m ended,
      assemble-listing leader m.reach decode memory (suc size) below
          (glue_unreachable-Placed memory m.reach (suc size) (omega arith)) room,
    )

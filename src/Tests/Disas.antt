-- ===== src/Tests/Disas.antt =====
-- Runs of the disassembler.
use chip_eight_jit.Common.{
  ◌≡◌, refl, true, false, none, some, List, [], ◌∷◌, Array, Below, arith, ◌==◌, if◌then◌else◌,
}
use chip_eight_jit.Asm.Result.{ok}
use chip_eight_jit.Asm.Lexer.{Text, text}
use chip_eight_jit.Asm.Passes.{assemble}
use chip_eight_jit.Disas.Opcodes.{word_at, valid_opcode, labelable}
use chip_eight_jit.Disas.Analysis.{analyze, analyze_word, analyze_from, glue_from, glue_unreachable}
use chip_eight_jit.Disas.Descent.{
  Map, fresh_map, mark_from, meets_code, note, note_write, mark_data, pushes, falls_through,
  next_ldi, push, mark_code_at, walk, descend_from, descend,
}
use chip_eight_jit.Disas.Descent.Ends.{descend-ends}
use chip_eight_jit.Disas.Format.{hex_digit}
use chip_eight_jit.Disas.Printing.{output, switch_text, body, disassemble}
use chip_eight_jit.Disas.Listing.{word_lines, lines_from, trailing_lines, listing, disassembly}
use chip_eight_jit.Disas.Listing.Loops.{bytes_from}
use chip_eight_jit.Disas.Listing.Whole.{assemble-disassembly}

-- A skip over a jump to itself, a jump over a word of data back to the start, and a last byte.
abbrev rom : Array
rom a =
    if a == 0x200
    then 0x3a
    else if a == 0x201
    then 0x07
    else if a == 0x202
    then 0x12
    else if a == 0x203
    then 0x02
    else if a == 0x204
    then 0x12
    else if a == 0x205
    then 0x00
    else if a == 0x206
    then 0xff
    else if a == 0x208
    then 0x2b
    else 0

rom-Below : Below 0x100 rom
rom-Below a = ground arith

lines_of_rom :
    disassembly true false rom 9
    ≡ some (
        text "block200:\n"
        ∷ text "        SE VA, 0x07\n"
        ∷ text "block202:\n"
        ∷ text "        JP block202\n"
        ∷ text "block204:\n"
        ∷ text "        JP block200\n"
        ∷ text "block206:\n"
        ∷ text "        .word 0xFF00 ; data (unreachable)\n"
        ∷ text "        .byte 0x2B\n"
        ∷ [])
unfolding disassembly listing lines_from word_lines trailing_lines disassemble body switch_text
    output hex_digit descend descend_from walk push pushes labelable note note_write mark_data
    falls_through next_ldi mark_code_at valid_opcode word_at analyze analyze_from analyze_word
    glue_unreachable glue_from
lines_of_rom = refl

assemble-disassembly_example :
    (lines : List Text) × (disassembly true false rom 9 ≡ some lines)
    × (assemble lines ≡ ok (bytes_from rom 9 0x200))
assemble-disassembly_example = assemble-disassembly false rom 9 rom-Below (omega arith)

descend-ends_example : (m : Map) × (descend rom 9 ≡ some m)
descend-ends_example = descend-ends rom 9 (omega arith)

abbrev mapped : Map
mapped = elim (descend rom 9) [ none ↦ fresh_map | some m ↦ m ]

-- LD I, 0x206; LD [I], V0; JP 0x206; and an instruction there, which the store writes over.
abbrev late : Array
late a =
    if a == 0x200
    then 0xa2
    else if a == 0x201
    then 0x06
    else if a == 0x202
    then 0xf0
    else if a == 0x203
    then 0x55
    else if a == 0x204
    then 0x12
    else if a == 0x205
    then 0x06
    else if a == 0x206
    then 0x12
    else if a == 0x207
    then 0x06
    else 0

abbrev late_map : Map
late_map = elim (descend late 8) [ none ↦ fresh_map | some m ↦ m ]

late_code_missed : (late_map.reach 0x206 ≡ true) × (late_map.smc_possible ≡ false)
unfolding descend descend_from walk push pushes labelable note note_write mark_data mark_from
    meets_code falls_through next_ldi mark_code_at valid_opcode word_at
late_code_missed = (refl, refl)

-- ===== src/Disas/Printing.antt =====
-- `output`, `raw_word` and `disassemble` of src/disas.c: the text of one instruction, without the end
-- of the line.
pub mod Reads
use chip_eight_jit.Common.{
  ℕ, ◌/◌, ◌%◌, ◌^◌, Bool, true, false, not, ◌&&◌, ◌||◌, List, [], ◌∷◌, ◌++◌, ltb, ◌==◌,
  if◌then◌else◌,
}
use chip_eight_jit.Machine.{x_of, y_of, immediate_four, immediate_eight, immediate_twelve}
use chip_eight_jit.Asm.Lexer.{Text, text}
use chip_eight_jit.Disas.Opcodes.{memory_limit}
use chip_eight_jit.Disas.Analysis.{Flags}
use chip_eight_jit.Disas.Format.{hex, decimal, reg_text, block_text}

-- The globals that the printing reads: `asm` is `assembly_output`.
pub record Style : Type 0 where
  pub asm : Bool
  pub leader : Flags
  pub reach : Flags

unfoldable pub output : Style → ℕ → Text → Text
output s pc body =
    if s.asm
    then text "        "
      ++ body
      ++ (if ltb pc memory_limit && not (s.reach pc) then text " ; unreachable" else [])
    else text "0x" ++ hex 4 pc ++ text ":\t" ++ body

-- `BOTH`: the format for the assembler, or the one in prose.
abbrev pub both : Style → Text → Text → Text
both s asm_format prose_format = if s.asm then asm_format else prose_format

abbrev pub raw_word : Style → ℕ → ℕ → Text
raw_word s pc op =
    both s (text ".word 0x" ++ hex 4 op ++ text " ; unrecognized opcode")
      (text "op code " ++ hex 4 op ++ text " at pc 0x" ++ hex 4 pc)

-- A mnemonic with two registers, in each format.
abbrev two : Style → Text → ℕ → Text → ℕ → Text
two s mnemonic x operator y =
    both s (mnemonic ++ text " " ++ reg_text x ++ text ", " ++ reg_text y)
      (reg_text x ++ text " " ++ operator ++ text " " ++ reg_text y)

-- A mnemonic with a register and a byte.
abbrev with_byte : Style → Text → ℕ → Text → ℕ → Text
with_byte s mnemonic x operator kk =
    both s (mnemonic ++ text " " ++ reg_text x ++ text ", 0x" ++ hex 2 kk)
      (reg_text x ++ text " " ++ operator ++ text " 0x" ++ hex 4 kk)

-- The skips, whose prose starts alike.
abbrev if_next : Style → Text → Text
if_next s t = if s.asm then t else text "skip next if " ++ t

-- An operand that is an address: its block's name if it has one.
abbrev address : Style → Text → ℕ → Text → Text
address s mnemonic nnn prose =
    if s.asm && s.leader nnn
    then mnemonic ++ text " " ++ block_text nnn
    else both s (mnemonic ++ text " 0x" ++ hex 3 nnn) (prose ++ text "0x" ++ hex 4 nnn)

-- `case 0x8`
unfoldable pub arithmetic_text : Style → ℕ → ℕ → Text
arithmetic_text s pc op =
    let x = x_of op in
    let y = y_of op in
    let n = immediate_four op in
    if n == 0x0
    then two s (text "LD") x (text "=") y
    else if n == 0x1
    then two s (text "OR") x (text "|=") y
    else if n == 0x2
    then two s (text "AND") x (text "&=") y
    else if n == 0x3
    then two s (text "XOR") x (text "^=") y
    else if n == 0x4
    then two s (text "ADD") x (text "+=") y
    else if n == 0x5
    then two s (text "SUB") x (text "-=") y
    else if n == 0x6
    then two s (text "SHR") x (text ">>=") y
    else if n == 0x7
    then both s (text "SUBN " ++ reg_text x ++ text ", " ++ reg_text y)
        (reg_text x ++ text " = " ++ reg_text y ++ text " - " ++ reg_text x)
    else if n == 0xe
    then two s (text "SHL") x (text "<<=") y
    else raw_word s pc op

-- `case 0xe`
unfoldable pub keyboard_text : Style → ℕ → ℕ → Text
keyboard_text s pc op =
    let x = x_of op in
    let kk = immediate_eight op in
    if kk == 0x9e
    then both s (text "SKP " ++ reg_text x) (text "skip next if " ++ reg_text x ++ text " is down")
    else if kk == 0xa1
    then both s (text "SKNP " ++ reg_text x) (text "skip next if " ++ reg_text x ++ text " is up")
    else raw_word s pc op

-- `case 0xf`
unfoldable pub misc_text : Style → ℕ → ℕ → Text
misc_text s pc op =
    let v = reg_text (x_of op) in
    let kk = immediate_eight op in
    if kk == 0x07
    then both s (text "LD " ++ v ++ text ", DT") (v ++ text " = <current delay timer>")
    else if kk == 0x0a
    then both s (text "LD " ++ v ++ text ", K") (v ++ text " = <next key pressed>")
    else if kk == 0x15
    then both s (text "LD DT, " ++ v) (text "<current delay timer> = " ++ v)
    else if kk == 0x18
    then both s (text "LD ST, " ++ v) (text "<current sound timer> = " ++ v)
    else if kk == 0x1e
    then both s (text "ADD I, " ++ v) (text "addr += " ++ v)
    else if kk == 0x29
    then both s (text "LD F, " ++ v) (text "addr = <address of hex sprite " ++ v ++ text ">")
    else if kk == 0x33
    then both s (text "LD B, " ++ v) (text "store " ++ v ++ text " in BCD starting at addr")
    else if kk == 0x55
    then both s (text "LD [I], " ++ v)
        (text "save registers V0 through " ++ v ++ text " starting at addr")
    else if kk == 0x65
    then both s (text "LD " ++ v ++ text ", [I]")
        (text "load registers V0 through " ++ v ++ text " starting at addr")
    else raw_word s pc op

-- The rest of the switch.
unfoldable pub switch_text : Style → ℕ → ℕ → Text
switch_text s pc op =
    let nibble = op / 2 ^ 12 in
    let x = x_of op in
    let y = y_of op in
    let n = immediate_four op in
    let kk = immediate_eight op in
    let nnn = immediate_twelve op in
    if nibble == 0x0
    then (if s.asm then raw_word s pc op else text "jump 0x" ++ hex 4 nnn)
    else if nibble == 0x1
    then address s (text "JP") nnn (text "jump ")
    else if nibble == 0x2
    then address s (text "CALL") nnn (text "call ")
    else if nibble == 0x3
    then if_next s (with_byte s (text "SE") x (text "==") kk)
    else if nibble == 0x4
    then if_next s (with_byte s (text "SNE") x (text "!=") kk)
    else if nibble == 0x5
    then (if n == 0 || not s.asm
        then if_next s (two s (text "SE") x (text "==") y)
        else raw_word s pc op)
    else if nibble == 0x6
    then with_byte s (text "LD") x (text "=") kk
    else if nibble == 0x7
    then with_byte s (text "ADD") x (text "+=") kk
    else if nibble == 0x8
    then arithmetic_text s pc op
    else if nibble == 0x9
    then (if n == 0 || not s.asm
        then if_next s (two s (text "SNE") x (text "!=") y)
        else raw_word s pc op)
    else if nibble == 0xa
    then address s (text "LD I,") nnn (text "addr = ")
    else if nibble == 0xb
    then both s
        (text "JP V0, 0x"
          ++ hex 3 nnn
          ++ text " ; WARNING: indirect jump, block analysis may be incomplete")
        (text "branch to 0x" ++ hex 4 nnn ++ text " + V0")
    else if nibble == 0xc
    then with_byte s (text "RND") x (text "= <random> &") kk
    else if nibble == 0xd
    then both s (text "DRW " ++ reg_text x ++ text ", " ++ reg_text y ++ text ", 0x" ++ hex 1 n) (
        text "draw sprite from addr of height "
        ++ decimal n
        ++ text " at ("
        ++ reg_text x
        ++ text ", "
        ++ reg_text y
        ++ text ")")
    else if nibble == 0xe
    then keyboard_text s pc op
    else misc_text s pc op

unfoldable pub body : Style → ℕ → ℕ → Text
body s pc op =
    if op == 0x00e0
    then both s (text "CLS") (text "clear")
    else if op == 0x00ee
    then both s (text "RET") (text "return")
    else switch_text s pc op

unfoldable pub disassemble : Style → ℕ → ℕ → Text
disassemble s pc op = output s pc (body s pc op)

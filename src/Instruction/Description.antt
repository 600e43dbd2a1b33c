-- ===== src/Instruction/Description.antt =====
-- core/include/core/instruction: the `getInstructionDescription` of each instruction, which the
-- dispatch of its format compares with the fields.
use riscv_sym.Base.{ℕ}
use riscv_sym.Instruction.Decode.{description}

abbrev pub add : ℕ
add = description 0x0 0x0

abbrev pub sub : ℕ
sub = description 0x0 0x20

abbrev pub sll : ℕ
sll = description 0x1 0x0

abbrev pub slt : ℕ
slt = description 0x2 0x0

abbrev pub sltu : ℕ
sltu = description 0x3 0x0

abbrev pub xor : ℕ
xor = description 0x4 0x0

abbrev pub srl : ℕ
srl = description 0x5 0x0

abbrev pub sra : ℕ
sra = description 0x5 0x20

abbrev pub or : ℕ
or = description 0x6 0x0

abbrev pub and : ℕ
and = description 0x7 0x0

abbrev pub mul : ℕ
mul = description 0x0 0x1

abbrev pub mulh : ℕ
mulh = description 0x1 0x1

abbrev pub mulhsu : ℕ
mulhsu = description 0x2 0x1

abbrev pub mulhu : ℕ
mulhu = description 0x3 0x1

abbrev pub div : ℕ
div = description 0x4 0x1

abbrev pub divu : ℕ
divu = description 0x5 0x1

abbrev pub rem : ℕ
rem = description 0x6 0x1

abbrev pub remu : ℕ
remu = description 0x7 0x1

abbrev pub lr : ℕ
lr = description 0x2 0x2

abbrev pub sc : ℕ
sc = description 0x2 0x3

abbrev pub amo_add : ℕ
amo_add = description 0x2 0x0

abbrev pub amo_swap : ℕ
amo_swap = description 0x2 0x1

abbrev pub amo_xor : ℕ
amo_xor = description 0x2 0x4

abbrev pub amo_or : ℕ
amo_or = description 0x2 0x8

abbrev pub amo_and : ℕ
amo_and = description 0x2 0xc

abbrev pub amo_min : ℕ
amo_min = description 0x2 0x10

abbrev pub amo_max : ℕ
amo_max = description 0x2 0x14

abbrev pub amo_minu : ℕ
amo_minu = description 0x2 0x18

abbrev pub amo_maxu : ℕ
amo_maxu = description 0x2 0x1c

abbrev pub addi : ℕ
addi = 0x0

abbrev pub slti : ℕ
slti = 0x2

abbrev pub sltiu : ℕ
sltiu = 0x3

abbrev pub xori : ℕ
xori = 0x4

abbrev pub ori : ℕ
ori = 0x6

abbrev pub andi : ℕ
andi = 0x7

abbrev pub slli : ℕ
slli = description 0x1 0x0

abbrev pub srli : ℕ
srli = description 0x5 0x0

abbrev pub srai : ℕ
srai = description 0x5 0x1

abbrev pub lb : ℕ
lb = 0x0

abbrev pub lh : ℕ
lh = 0x1

abbrev pub lw : ℕ
lw = 0x2

abbrev pub lbu : ℕ
lbu = 0x4

abbrev pub lhu : ℕ
lhu = 0x5

abbrev pub sb : ℕ
sb = 0x0

abbrev pub sh : ℕ
sh = 0x1

abbrev pub sw : ℕ
sw = 0x2

abbrev pub beq : ℕ
beq = 0x0

abbrev pub bne : ℕ
bne = 0x1

abbrev pub blt : ℕ
blt = 0x4

abbrev pub bge : ℕ
bge = 0x5

abbrev pub bltu : ℕ
bltu = 0x6

abbrev pub bgeu : ℕ
bgeu = 0x7

abbrev pub csrrw : ℕ
csrrw = 0x1

abbrev pub csrrs : ℕ
csrrs = 0x2

abbrev pub csrrc : ℕ
csrrc = 0x3

abbrev pub csrrwi : ℕ
csrrwi = 0x5

abbrev pub csrrsi : ℕ
csrrsi = 0x6

abbrev pub csrrci : ℕ
csrrci = 0x7

abbrev pub sfence_vma : ℕ
sfence_vma = 0x09

abbrev pub ecall : ℕ
ecall = 0x0

abbrev pub ebreak : ℕ
ebreak = 0x1

abbrev pub mret : ℕ
mret = 0x302

abbrev pub sret : ℕ
sret = 0x102

abbrev pub wfi : ℕ
wfi = 0x105

-- The opcodes, and the two fences.
abbrev pub r_type : ℕ
r_type = 0x33

abbrev pub atomic_instruction : ℕ
atomic_instruction = 0x2f

abbrev pub b_type : ℕ
b_type = 0x63

abbrev pub arithmetic_instruction : ℕ
arithmetic_instruction = 0x13

abbrev pub load_instruction : ℕ
load_instruction = 0x03

abbrev pub jalr : ℕ
jalr = 0x67

abbrev pub fence_instruction : ℕ
fence_instruction = 0x0f

abbrev pub j_type : ℕ
j_type = 0x6f

abbrev pub s_type : ℕ
s_type = 0x23

abbrev pub system : ℕ
system = 0x73

abbrev pub lui : ℕ
lui = 0x37

abbrev pub auipc : ℕ
auipc = 0x17

abbrev pub fence : ℕ
fence = 0x0

abbrev pub fence_i : ℕ
fence_i = 0x1

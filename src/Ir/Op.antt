-- ===== src/Ir/Op.antt =====
-- The values of `enum AlirOpcode` of include/alir/alir.h.
use alkyl.Prelude.{ℕ}

abbrev pub alloca : ℕ
alloca = 0

abbrev pub free_stack : ℕ
free_stack = 1

abbrev pub store : ℕ
store = 2

abbrev pub load : ℕ
load = 3

abbrev pub get_ptr : ℕ
get_ptr = 4

abbrev pub bitcast : ℕ
bitcast = 5

abbrev pub add : ℕ
add = 6

abbrev pub sub : ℕ
sub = 7

abbrev pub mul : ℕ
mul = 8

abbrev pub div : ℕ
div = 9

abbrev pub modulo : ℕ
modulo = 10

abbrev pub fadd : ℕ
fadd = 11

abbrev pub fsub : ℕ
fsub = 12

abbrev pub fmul : ℕ
fmul = 13

abbrev pub fdiv : ℕ
fdiv = 14

abbrev pub and : ℕ
and = 15

abbrev pub or : ℕ
or = 16

abbrev pub xor : ℕ
xor = 17

abbrev pub not : ℕ
not = 18

abbrev pub shl : ℕ
shl = 19

abbrev pub shr : ℕ
shr = 20

abbrev pub rotr : ℕ
rotr = 21

abbrev pub rotl : ℕ
rotl = 22

abbrev pub lt : ℕ
lt = 23

abbrev pub gt : ℕ
gt = 24

abbrev pub lte : ℕ
lte = 25

abbrev pub gte : ℕ
gte = 26

abbrev pub eq : ℕ
eq = 27

abbrev pub neq : ℕ
neq = 28

abbrev pub jump : ℕ
jump = 29

abbrev pub condi : ℕ
condi = 30

abbrev pub call : ℕ
call = 31

abbrev pub ret : ℕ
ret = 32

abbrev pub panic : ℕ
panic = 33

abbrev pub fallback : ℕ
fallback = 34

abbrev pub cast : ℕ
cast = 35

abbrev pub sizeof : ℕ
sizeof = 36

abbrev pub alignof : ℕ
alignof = 37

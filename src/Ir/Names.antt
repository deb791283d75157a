-- ===== src/Ir/Names.antt =====
-- The values of `enum AlirValueKind` of include/alir/alir.h, and of `enum BaseType` of
-- include/parser/typestruct.h as far as the modelled code tests them.
use alkyl.Prelude.{ℕ}

abbrev pub val_int : ℕ
val_int = 1

abbrev pub val_single : ℕ
val_single = 2

abbrev pub val_double : ℕ
val_double = 3

abbrev pub val_var : ℕ
val_var = 4

abbrev pub val_temp : ℕ
val_temp = 5

abbrev pub val_label : ℕ
val_label = 6

abbrev pub val_const : ℕ
val_const = 7

abbrev pub val_type : ℕ
val_type = 8

abbrev pub val_global : ℕ
val_global = 9

abbrev pub type_unknown : ℕ
type_unknown = 20

abbrev pub type_class : ℕ
type_class = 16

abbrev pub type_single : ℕ
type_single = 11

abbrev pub type_double : ℕ
type_double = 12

abbrev pub type_bool : ℕ
type_bool = 10

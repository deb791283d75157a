-- ===== src/Lexer/Keywords.antt =====
-- include/lexer/lexer.h: `keywords`; src/lexer/lexer.c: the hash table of them.
pub mod Lookup
use alkyl.Prelude.{
  ℕ, zero, suc, ◌+◌, ◌-◌, ◌*◌, ◌%◌, ◌^◌, List, [], ◌∷◌, true, false, Option, none, some, Str,
  same_text, codes,
}
use alkyl.Lexer.Token.{
  TokenType, token_abstract, token_accept, token_alir, token_as, token_being, token_break,
  token_case, token_class, token_clean, token_closed, token_compound, token_const, token_container,
  token_continue, token_covalent, token_default, token_defer, token_define, token_else, token_emit,
  token_enum, token_errnum, token_exact, token_export, token_extended, token_extern, token_false,
  token_flux, token_for, token_frame, token_has, token_hasattribute, token_hasmethod, token_if,
  token_import, token_impure, token_in, token_inert, token_infmut, token_infop, token_is,
  token_kw_alignof, token_kw_bool, token_kw_char, token_kw_defined, token_kw_double, token_kw_imut,
  token_kw_int, token_kw_iscompatible, token_kw_let, token_kw_long, token_kw_mut, token_kw_short,
  token_kw_signed, token_kw_single, token_kw_sizeof, token_kw_unsigned, token_kw_void, token_leak,
  token_link, token_loop, token_meta, token_method, token_naked, token_namespace, token_not,
  token_null, token_once, token_open, token_override, token_partial, token_postmeta, token_pragma,
  token_prefop, token_premeta, token_premut, token_pristine, token_private, token_public,
  token_pure, token_purge, token_reactive, token_reason, token_reject, token_residue, token_return,
  token_struct, token_suffop, token_sufmut, token_switch, token_tainted, token_then, token_total,
  token_true, token_typedef, token_typeof, token_union, token_untaint, token_wash, token_while,
}
use alkyl.Lexer.Bytes.{sign_extend}

-- `KeywordDef`: a word and the type of its token.
abbrev pub KeywordDef : Type 0
KeywordDef = Str × TokenType

abbrev pub keywords : List KeywordDef
keywords =
    (codes "abstract", token_abstract)
    ∷ (codes "accept", token_accept)
    ∷ (codes "alignof", token_kw_alignof)
    ∷ (codes "alir", token_alir)
    ∷ (codes "as", token_as)
    ∷ (codes "being", token_being)
    ∷ (codes "bool", token_kw_bool)
    ∷ (codes "break", token_break)
    ∷ (codes "case", token_case)
    ∷ (codes "char", token_kw_char)
    ∷ (codes "class", token_class)
    ∷ (codes "clean", token_clean)
    ∷ (codes "closed", token_closed)
    ∷ (codes "compound", token_compound)
    ∷ (codes "const", token_const)
    ∷ (codes "container", token_container)
    ∷ (codes "continue", token_continue)
    ∷ (codes "covalent", token_covalent)
    ∷ (codes "default", token_default)
    ∷ (codes "defer", token_defer)
    ∷ (codes "define", token_define)
    ∷ (codes "defined", token_kw_defined)
    ∷ (codes "double", token_kw_double)
    ∷ (codes "else", token_else)
    ∷ (codes "emit", token_emit)
    ∷ (codes "enum", token_enum)
    ∷ (codes "errnum", token_errnum)
    ∷ (codes "exact", token_exact)
    ∷ (codes "export", token_export)
    ∷ (codes "extended", token_extended)
    ∷ (codes "extern", token_extern)
    ∷ (codes "false", token_false)
    ∷ (codes "flux", token_flux)
    ∷ (codes "for", token_for)
    ∷ (codes "frame", token_frame)
    ∷ (codes "has", token_has)
    ∷ (codes "hasattribute", token_hasattribute)
    ∷ (codes "hasmethod", token_hasmethod)
    ∷ (codes "if", token_if)
    ∷ (codes "immutable", token_kw_imut)
    ∷ (codes "import", token_import)
    ∷ (codes "impure", token_impure)
    ∷ (codes "imut", token_kw_imut)
    ∷ (codes "in", token_in)
    ∷ (codes "inert", token_inert)
    ∷ (codes "infmut", token_infmut)
    ∷ (codes "infop", token_infop)
    ∷ (codes "int", token_kw_int)
    ∷ (codes "is", token_is)
    ∷ (codes "iscompatible", token_kw_iscompatible)
    ∷ (codes "leak", token_leak)
    ∷ (codes "let", token_kw_let)
    ∷ (codes "link", token_link)
    ∷ (codes "long", token_kw_long)
    ∷ (codes "loop", token_loop)
    ∷ (codes "meta", token_meta)
    ∷ (codes "method", token_method)
    ∷ (codes "mut", token_kw_mut)
    ∷ (codes "mutable", token_kw_mut)
    ∷ (codes "naked", token_naked)
    ∷ (codes "namespace", token_namespace)
    ∷ (codes "not", token_not)
    ∷ (codes "null", token_null)
    ∷ (codes "once", token_once)
    ∷ (codes "open", token_open)
    ∷ (codes "override", token_override)
    ∷ (codes "partial", token_partial)
    ∷ (codes "postmeta", token_postmeta)
    ∷ (codes "pragma", token_pragma)
    ∷ (codes "prefop", token_prefop)
    ∷ (codes "premeta", token_premeta)
    ∷ (codes "premut", token_premut)
    ∷ (codes "pristine", token_pristine)
    ∷ (codes "private", token_private)
    ∷ (codes "public", token_public)
    ∷ (codes "pure", token_pure)
    ∷ (codes "purge", token_purge)
    ∷ (codes "reactive", token_reactive)
    ∷ (codes "reason", token_reason)
    ∷ (codes "reject", token_reject)
    ∷ (codes "residue", token_residue)
    ∷ (codes "return", token_return)
    ∷ (codes "short", token_kw_short)
    ∷ (codes "signed", token_kw_signed)
    ∷ (codes "single", token_kw_single)
    ∷ (codes "sizeof", token_kw_sizeof)
    ∷ (codes "struct", token_struct)
    ∷ (codes "suffop", token_suffop)
    ∷ (codes "sufmut", token_sufmut)
    ∷ (codes "switch", token_switch)
    ∷ (codes "tainted", token_tainted)
    ∷ (codes "then", token_then)
    ∷ (codes "total", token_total)
    ∷ (codes "true", token_true)
    ∷ (codes "typedef", token_typedef)
    ∷ (codes "typeof", token_typeof)
    ∷ (codes "union", token_union)
    ∷ (codes "unsigned", token_kw_unsigned)
    ∷ (codes "untaint", token_untaint)
    ∷ (codes "void", token_kw_void)
    ∷ (codes "wash", token_wash)
    ∷ (codes "while", token_while)
    ∷ []

-- `hash_str` and `hash_strn`, on the bytes that they read.
unfoldable pub hash_from : ℕ → Str → ℕ
hash_from hash [] = hash
hash_from hash (c ∷ str) = hash_from ((hash * 33 + sign_extend 32 c) % 2 ^ 32) str

unfoldable pub hash_str : Str → ℕ
unfolding hash_from
hash_str str = hash_from 5381 str

abbrev pub kw_hash_size : ℕ
kw_hash_size = 256

-- `kw_hash`: the entry of each index below `kw_hash_size`; `none` where the word is NULL.
abbrev pub Slots : Type 0
Slots = List (Option KeywordDef)

abbrev pub slot : Slots → ℕ → Option KeywordDef
slot [] h = none
slot (e ∷ slots) zero = e
slot (e ∷ slots) (suc h) = slot slots h

abbrev pub set_slot : Slots → ℕ → KeywordDef → Slots
set_slot [] h k = []
set_slot (e ∷ slots) zero k = some k ∷ slots
set_slot (e ∷ slots) (suc h) k = e ∷ set_slot slots h k

abbrev pub empty_slots : ℕ → Slots
empty_slots zero = []
empty_slots (suc n) = none ∷ empty_slots n

-- The first free slot from `h` on, in at most `n` steps.
unfoldable pub free_slot : ℕ → Slots → ℕ → Option ℕ
free_slot zero slots h = none
free_slot (suc n) slots h = elim (slot slots h) [
  | none ↦ some h
  | some k ↦ free_slot n slots ((h + 1) % kw_hash_size)
]

-- The loop of `init_kw_hash`; `none` when there is no free slot, where the code does not end.
unfoldable pub add_keywords : List KeywordDef → Slots → Option Slots
unfolding free_slot hash_str
add_keywords [] slots = some slots
add_keywords (k ∷ ks) slots = elim (free_slot kw_hash_size slots (hash_str k.0 % kw_hash_size)) [
  | none ↦ none
  | some h ↦ add_keywords ks (set_slot slots h k)
]

unfoldable pub init_kw_hash : Option Slots
unfolding add_keywords
init_kw_hash = add_keywords keywords (empty_slots kw_hash_size)

-- The loop of `lex_word` over the slots from `h` on: the keyword of this spelling, or the empty
-- slot; `none` when neither is met in `n` steps, where the code does not end.
unfoldable pub find_keyword : ℕ → Slots → ℕ → Str → Option (Option KeywordDef)
find_keyword zero slots h word = none
find_keyword (suc n) slots h word = elim (slot slots h) [
  | none ↦ some none
  | some k ↦ elim (same_text k.0 word) [
    | true ↦ some (some k)
    | false ↦ find_keyword n slots ((h + 1) % kw_hash_size) word
  ]
]

unfoldable pub lookup_keyword : Slots → Str → Option (Option KeywordDef)
unfolding find_keyword hash_str
lookup_keyword slots word = find_keyword kw_hash_size slots (hash_str word % kw_hash_size) word

-- ===== src/Exceptions.antt =====
-- Python's exception classes as far as the harnesses and the oracle name them, `isinstance` on
-- them, and what a `try` statement with several `except` clauses does.
pub mod Laws
use mapfuzz.Base.{
  ℕ, Text, codes, text_eq, Bool, true, false, List, [], ◌∷◌, ◌&&◌, any, ◌==◌, if◌then◌else◌,
}

pub data Builtin : Type 0 where
  base_exception system_exit keyboard_interrupt generator_exit exception : Builtin
  arithmetic_error overflow_error zero_division_error assertion_error attribute_error : Builtin
  eof_error import_error module_not_found_error lookup_error index_error key_error : Builtin
  memory_error name_error os_error runtime_error not_implemented_error recursion_error : Builtin
  stop_iteration type_error value_error unicode_error unicode_decode_error : Builtin
  unicode_encode_error struct_error json_decode_error : Builtin

-- `derived name c` is a class of that name with the one base class `c`.
pub data ExcClass : Type 0 where
  builtin : Builtin → ExcClass
  derived : Text → ExcClass → ExcClass

-- the bases of a class, from the class itself up
unfoldable pub bases : Builtin → List Builtin
bases base_exception = base_exception ∷ []
bases system_exit = system_exit ∷ base_exception ∷ []
bases keyboard_interrupt = keyboard_interrupt ∷ base_exception ∷ []
bases generator_exit = generator_exit ∷ base_exception ∷ []
bases exception = exception ∷ base_exception ∷ []
bases arithmetic_error = arithmetic_error ∷ exception ∷ base_exception ∷ []
bases overflow_error = overflow_error ∷ arithmetic_error ∷ exception ∷ base_exception ∷ []
bases zero_division_error = zero_division_error ∷ arithmetic_error ∷ exception ∷ base_exception ∷ []
bases assertion_error = assertion_error ∷ exception ∷ base_exception ∷ []
bases attribute_error = attribute_error ∷ exception ∷ base_exception ∷ []
bases eof_error = eof_error ∷ exception ∷ base_exception ∷ []
bases import_error = import_error ∷ exception ∷ base_exception ∷ []
bases module_not_found_error =
    module_not_found_error ∷ import_error ∷ exception ∷ base_exception ∷ []
bases lookup_error = lookup_error ∷ exception ∷ base_exception ∷ []
bases index_error = index_error ∷ lookup_error ∷ exception ∷ base_exception ∷ []
bases key_error = key_error ∷ lookup_error ∷ exception ∷ base_exception ∷ []
bases memory_error = memory_error ∷ exception ∷ base_exception ∷ []
bases name_error = name_error ∷ exception ∷ base_exception ∷ []
bases os_error = os_error ∷ exception ∷ base_exception ∷ []
bases runtime_error = runtime_error ∷ exception ∷ base_exception ∷ []
bases not_implemented_error =
    not_implemented_error ∷ runtime_error ∷ exception ∷ base_exception ∷ []
bases recursion_error = recursion_error ∷ runtime_error ∷ exception ∷ base_exception ∷ []
bases stop_iteration = stop_iteration ∷ exception ∷ base_exception ∷ []
bases type_error = type_error ∷ exception ∷ base_exception ∷ []
bases value_error = value_error ∷ exception ∷ base_exception ∷ []
bases unicode_error = unicode_error ∷ value_error ∷ exception ∷ base_exception ∷ []
bases unicode_decode_error =
    unicode_decode_error ∷ unicode_error ∷ value_error ∷ exception ∷ base_exception ∷ []
bases unicode_encode_error =
    unicode_encode_error ∷ unicode_error ∷ value_error ∷ exception ∷ base_exception ∷ []
bases struct_error = struct_error ∷ exception ∷ base_exception ∷ []
bases json_decode_error = json_decode_error ∷ value_error ∷ exception ∷ base_exception ∷ []

unfoldable pub tag : Builtin → ℕ
tag base_exception = 0
tag system_exit = 1
tag keyboard_interrupt = 2
tag generator_exit = 3
tag exception = 4
tag arithmetic_error = 5
tag overflow_error = 6
tag zero_division_error = 7
tag assertion_error = 8
tag attribute_error = 9
tag eof_error = 10
tag import_error = 11
tag module_not_found_error = 12
tag lookup_error = 13
tag index_error = 14
tag key_error = 15
tag memory_error = 16
tag name_error = 17
tag os_error = 18
tag runtime_error = 19
tag not_implemented_error = 20
tag recursion_error = 21
tag stop_iteration = 22
tag type_error = 23
tag value_error = 24
tag unicode_error = 25
tag unicode_decode_error = 26
tag unicode_encode_error = 27
tag struct_error = 28
tag json_decode_error = 29

-- `c is d`
unfoldable pub same_class : ExcClass → ExcClass → Bool
unfolding tag text_eq
same_class (builtin a) (builtin b) = tag a == tag b
same_class (builtin a) (derived m d) = false
same_class (derived n c) (builtin b) = false
same_class (derived n c) (derived m d) = text_eq n m && same_class c d

abbrev pub builtins : List Builtin → List ExcClass
builtins [] = []
builtins (b ∷ bs) = builtin b ∷ builtins bs

-- `type(e).__mro__`, but for `object`
unfoldable pub mro : ExcClass → List ExcClass
unfolding bases
mro (builtin b) = builtins (bases b)
mro (derived n c) = derived n c ∷ mro c

-- `isinstance(e, c)`, for an exception `e` of class `e`
unfoldable pub is_instance : ExcClass → ExcClass → Bool
unfolding mro any same_class
is_instance e c = any (λ d. same_class d c) (mro e)

-- `isinstance(e, (c, …))`
unfoldable pub is_one_of : ExcClass → List ExcClass → Bool
unfolding is_instance
is_one_of e [] = false
is_one_of e (c ∷ cs) = if is_instance e c then true else is_one_of e cs

pub data Outcome : Type 0 where
  returned : Outcome
  raised : ExcClass → Outcome

-- What the body of an `except` clause does here: return, or a bare `raise`.
pub data Handler : Type 0 where
  swallow reraise : Handler

abbrev pub Clauses : Type 0
Clauses = List (List ExcClass × Handler)

unfoldable pub handle_raised : Clauses → ExcClass → Outcome
handle_raised [] e = raised e
handle_raised ((cs, swallow) ∷ rest) e = if is_one_of e cs then returned else handle_raised rest e
handle_raised ((cs, reraise) ∷ rest) e = if is_one_of e cs then raised e else handle_raised rest e

-- A `try` statement: the first clause with a class of the exception's is taken.
unfoldable pub handle : Clauses → Outcome → Outcome
unfolding handle_raised
handle clauses returned = returned
handle clauses (raised e) = handle_raised clauses e

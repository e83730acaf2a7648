-- ===== src/Descriptor/Tests.antt =====
-- Descriptors of vm/classfile.c: runs of the parsers, and the theorems at them.
use b_jvm.Common.{◌≡◌, refl, arith, [], ◌∷◌, ◌++◌, bytes, Bytes}
use b_jvm.Descriptor.{
  TypeKind, FieldDescriptor, MethodDescriptor, ok, error, Message, parse_field_descriptor,
  parse_complete_field_descriptor, parse_method_descriptor, to_semicolon, read_type_kind_char,
  kind_to_representable_kind,
}
use b_jvm.Descriptor.Print.{print_base, print_field, print_method, repr_of, IsField, IsMethod}
use b_jvm.Descriptor.Field.{parse_field_descriptor-print_field}
use b_jvm.Descriptor.Sound.{parse_field_descriptor-eq_ok}
use b_jvm.Descriptor.Method.{parse_method_descriptor-print_method, parse_method_descriptor-eq_ok}

abbrev strings : FieldDescriptor
strings = record {
  unparsed = bytes "[[Ljava/lang/String;";
  base_kind = TypeKind.reference;
  repr_kind = TypeKind.reference;
  dimensions = 2;
  class_name = bytes "java/lang/String";
}

abbrev flag : FieldDescriptor
flag = record {
  unparsed = bytes "Z";
  base_kind = TypeKind.boolean;
  repr_kind = TypeKind.int;
  dimensions = 0;
  class_name = [];
}

abbrev main : MethodDescriptor
main = record { args = strings ∷ flag ∷ []; return_type = flag }

strings_read : parse_field_descriptor (bytes "[[Ljava/lang/String;Z") ≡ ok (strings, bytes "Z")
unfolding parse_field_descriptor to_semicolon read_type_kind_char kind_to_representable_kind
strings_read = refl

main_read : parse_method_descriptor (bytes "([[Ljava/lang/String;Z)Z") ≡ ok main
unfolding parse_method_descriptor to_semicolon read_type_kind_char kind_to_representable_kind
main_read = refl

-- What follows the return type goes unnoticed.
main_read_with_tail : parse_method_descriptor (bytes "([[Ljava/lang/String;Z)Z???") ≡ ok main
unfolding parse_method_descriptor to_semicolon read_type_kind_char kind_to_representable_kind
main_read_with_tail = refl

field_tail : parse_complete_field_descriptor (bytes "ZI") ≡ error (Message.trailing_characters b'I')
unfolding parse_complete_field_descriptor read_type_kind_char kind_to_representable_kind
field_tail = refl

strings-IsField : IsField strings
unfolding print_field print_base repr_of
strings-IsField = record {
  few = omega arith;
  flat_void = λ e. cc;
  name = ((λ e. cc), omega arith);
  repr = refl;
  text = refl;
}

flag_read : parse_field_descriptor (bytes "Z") ≡ ok (flag, [])
unfolding parse_field_descriptor read_type_kind_char kind_to_representable_kind
flag_read = refl

flag-IsField : IsField flag
flag-IsField = (parse_field_descriptor-eq_ok (bytes "Z") flag_read).0

main-IsMethod : IsMethod main
main-IsMethod = record {
  args = ((strings-IsField, (λ e. cc)), ((flag-IsField, (λ e. cc)), tt));
  return_type = flag-IsField;
}

parse_field_descriptor-print_field_example :
    parse_field_descriptor (print_field strings ++ bytes "Z") ≡ ok (strings, bytes "Z")
parse_field_descriptor-print_field_example =
    parse_field_descriptor-print_field strings (bytes "Z") strings-IsField

parse_field_descriptor-eq_ok_example :
    IsField strings × (bytes "[[Ljava/lang/String;Z" ≡ print_field strings ++ bytes "Z")
parse_field_descriptor-eq_ok_example =
    parse_field_descriptor-eq_ok (bytes "[[Ljava/lang/String;Z") strings_read

parse_method_descriptor-print_method_example :
    parse_method_descriptor (print_method main ++ bytes "???") ≡ ok main
parse_method_descriptor-print_method_example =
    parse_method_descriptor-print_method main (bytes "???") main-IsMethod

parse_method_descriptor-eq_ok_example :
    IsMethod main
    × ((rest : Bytes) × (bytes "([[Ljava/lang/String;Z)Z" ≡ print_method main ++ rest))
parse_method_descriptor-eq_ok_example =
    parse_method_descriptor-eq_ok (bytes "([[Ljava/lang/String;Z)Z") main_read

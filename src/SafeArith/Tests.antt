-- ===== src/SafeArith/Tests.antt =====
-- Tests of the arithmetic, on bytes: `half` is 128.
use offst.Prelude.{◌≡◌, refl, some, none, arith}
use offst.Prelude.Int.{pos, negsuc, ◌+ℤ◌, ◌-ℤ◌}
use offst.SafeArith.{checked_add_unsigned, checked_sub_unsigned, checked_add, as_signed}
use offst.SafeArith.Exact.{exactly, checked_add_unsigned_exact, checked_sub_unsigned_exact}

-- From -100 by 227 to 127, which no single signed step could add.
add_across : checked_add_unsigned 128 (negsuc 99) 227 ≡ some (pos 127)
unfolding checked_add_unsigned checked_add as_signed ◌+ℤ◌
add_across = refl

add_beyond : checked_add_unsigned 128 (negsuc 99) 228 ≡ none
unfolding checked_add_unsigned checked_add as_signed ◌+ℤ◌
add_beyond = refl

checked_add_unsigned_exact_example :
    checked_add_unsigned 128 (negsuc 99) 227 ≡ exactly 128 (negsuc 99 +ℤ pos 227)
checked_add_unsigned_exact_example =
    checked_add_unsigned_exact 128 (negsuc 99) 227 (omega arith) refl (omega arith)

checked_sub_unsigned_exact_example :
    checked_sub_unsigned 128 (pos 100) 229 ≡ exactly 128 (pos 100 -ℤ pos 229)
checked_sub_unsigned_exact_example =
    checked_sub_unsigned_exact 128 (pos 100) 229 (omega arith) refl (omega arith)

-- ===== src/SmallFloat/Runs.antt =====
-- Runs of crates/surch-search/src/small_float.rs on concrete lengths.
use surch.Base.{◌-◌, ◌*◌, ◌≤◌, ◌≡◌, refl, arith}
use surch.SmallFloat.Defs.{num_bits, long_to_int4, int4_to_long, int_to_byte4, byte4_to_int}
use surch.SmallFloat.Bucket.{int4_to_long-long_to_int4}

-- A length of 1000 is kept as 984.
length_1000 : byte4_to_int (int_to_byte4 1000) ≡ 984
unfolding byte4_to_int int_to_byte4 int4_to_long long_to_int4 num_bits
length_1000 = refl

int4_to_long-long_to_int4_example :
    (int4_to_long (long_to_int4 1000) ≤ 1000)
    × (8 * (1000 - int4_to_long (long_to_int4 1000)) ≤ 1000)
int4_to_long-long_to_int4_example = int4_to_long-long_to_int4 1000 (omega arith)

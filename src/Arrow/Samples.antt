-- ===== src/Arrow/Samples.antt =====
-- Libraries for the tests: the integers stand for the floats, the decimals and the times.
use datafusion_postgres.Prelude.{String, true, false, some}
use datafusion_postgres.Prelude.Int.{ℤ, times}
use datafusion_postgres.Arrow.{DataType}
use datafusion_postgres.Arrow.Scalar.{Floats, Clock}
use datafusion_postgres.Arrow.Portal.{Libraries}

abbrev pub debug : DataType → String
debug DataType.int16 = "Int16"
debug type = "a type"

abbrev pub floats : Floats ℤ ℤ
floats = record {
  f32_of_int = λ n. n;
  f64_of_int = λ n. n;
  f32_of_f64 = λ n. n;
  f64_of_f32 = λ n. n;
  i64_of_f64 = λ n. n;
  is_finite = λ n. true;
  differ = λ a b. false;
  print = λ n. "1.5";
}

abbrev pub clock : Clock ℤ
clock = record {
  timestamp = λ t. t;
  timestamp_millis = λ t. times t 1000;
  timestamp_micros = λ t. times t 1000000;
  timestamp_nanos_opt = λ t. some (times t 1000000000);
}

abbrev pub libraries : Libraries ℤ ℤ String ℤ ℤ ℤ ℤ
libraries = record {
  display = debug;
  debug = debug;
  trim = λ s. s;
  floats = floats;
  decimals = record {
    rescale = λ scale n. n;
    mantissa = λ n. n;
    scale = λ n. 0;
    to_u64 = λ n. some n;
    to_u32 = λ n. some n;
    to_i64 = λ n. some n;
    to_i32 = λ n. some n;
    to_f64 = λ n. some n;
    to_f32 = λ n. some n;
    log10_floor = λ n. 0;
  };
  naive = clock;
  zoned = clock;
  from_naive_date = λ n. n;
}

-- ===== src/Judge/Samples.antt =====
-- A concrete arithmetic for the tests: thousandths, with whole numbers for the parsed text. A case of
-- an exercise, and the files of its runs.
use runcodes.Prelude.{
  ℕ, suc, ◌+◌, ◌-◌, ◌*◌, ◌/◌, ◌^◌, Option, none, some, [], ◌∷◌, ltb, leb, ◌&&◌, if◌then◌else◌, Text,
  ℤ, pos, negsuc, Floats, codes,
}
use runcodes.Judge.Model.{TestCase}
use runcodes.Judge.Files.{missing, regular}
use runcodes.Judge.Grading.{Config, CaseFiles}

abbrev plus : ℤ → ℕ
plus (pos n) = n
plus (negsuc n) = 0

abbrev minus : ℤ → ℕ
minus (pos n) = 0
minus (negsuc n) = suc n

-- a - b, as an integer.
abbrev sub_ℕ : ℕ → ℕ → ℤ
sub_ℕ a b = if leb b a then pos (a - b) else negsuc (b - a - 1)

abbrev digits : ℕ → Text → Option ℤ
digits acc [] = some (pos (acc * 1000))
digits acc (c ∷ s) =
    let rest = digits (acc * 10 + (c - b'0')) s in if leb b'0' c && leb c b'9' then rest else none

abbrev pub thousandths : Floats
thousandths = record {
  Float = ℤ;
  parse = λ s. elim s [ [] ↦ none | c ∷ t ↦ digits 0 (c ∷ t) ];
  of_int = λ a. sub_ℕ (plus a * 1000) (minus a * 1000);
  literal = λ m k. pos (m * 1000 / 10 ^ k);
  sub = λ a b. sub_ℕ (plus a + minus b) (minus a + plus b);
  mul = λ a b.
      sub_ℕ ((plus a * plus b + minus a * minus b) / 1000)
        ((plus a * minus b + minus a * plus b) / 1000);
  div = λ a b. pos (plus a * 1000 / plus b);
  neg = λ a. sub_ℕ (minus a) (plus a);
  lt = λ a b. ltb (plus a + minus b) (plus b + minus a);
  le = λ a b. leb (plus a + minus b) (plus b + minus a);
}

abbrev pub lower : ℕ → ℕ
lower c = if leb b'A' c && leb c b'Z' then c + 32 else c

abbrev pub limits : Config
limits = record { max_output_file_size = 100; max_compare_file_bytes = 100 }

abbrev pub seven : TestCase
seven = record {
  id = 4;
  number = pos 1;
  expected_output_type = codes "text";
  expected_output = codes "7";
  cpu_time_limit = pos 2;
  mem_usage_limit = pos 0;
  stack_limit = pos 0;
  file_size_limit = pos 0;
}

abbrev pub passing : CaseFiles
passing = record {
  output_file = regular (codes "7 \n");
  error_file = missing;
  monitor_file = regular (codes "[info]\nsignal=\nTime = 1\nexit_status=0\n");
}

-- The same run, stopped by `timeout`.
abbrev pub late : CaseFiles
late = record passing { monitor_file = regular (codes "signal=\ntime=2\nexit_status=124\n") }

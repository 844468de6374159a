-- ===== src/Tests/Reports.antt =====
-- The reports on a run of one suite with two cases.
use tinu.Prelude.{
  ℕ, ◌≡◌, refl, true, false, [], ◌∷◌, map, some, none, Str, bytes, show_nat, digits, decimal_digit,
  ◌/◌, ◌*◌, ok, arith, ◌>>=◌,
}
use tinu.Suites.{TestCase, TestSuite, Suites, test_validate_name}
use tinu.Runner.{test_passed, test_segfault, expected}
use tinu.Statistics.{StatTestInfo, StatSuiteInfo, TestStatistics}
use tinu.External.{report_replace, find_percent_s, put_file}
use tinu.External.Replace.{join, percent_s, report_replace-join}
use tinu.External.Entries.{CaseFits, SuiteFits, stat_entries}
use tinu.External.Reader.{one_line, read, as_pair}
use tinu.External.Reading.{read-put_file}
use tinu.Standard.{humanly_readable_size, test_report_print}
use tinu.Standard.Strip.{strip, literal}
use tinu.Standard.Colours.{strip-test_report_print}

abbrev case_named : Str → TestCase
case_named name = record {
  suite = 0;
  name = name;
  setup = 0;
  cleanup = 0;
  test = 1;
  user_data = 0;
  user_data_cleanup = 0;
}

abbrev list_suite : TestSuite
list_suite = record {
  name = bytes "list";
  tests = case_named (bytes "append") ∷ case_named (bytes "cut") ∷ [];
}

abbrev suites : Suites
suites = list_suite ∷ []

abbrev passed_case : StatTestInfo
passed_case = record {
  test = record { suite = 0; case = 0 };
  result = test_passed;
  start = 0;
  end_time = 50;
  assertions = 3;
  assertions_passed = 3;
  leaked_bytes = 0;
}

abbrev fault_case : StatTestInfo
fault_case = record {
  test = record { suite = 0; case = 1 };
  result = test_segfault;
  start = 50;
  end_time = 60;
  assertions = 2;
  assertions_passed = 1;
  leaked_bytes = 2048;
}

abbrev list_info : StatSuiteInfo
list_info = record {
  suite = 0;
  result = false;
  start = 0;
  end_time = 60;
  assertions = 5;
  assertions_passed = 4;
  test_info_list = passed_case ∷ fault_case ∷ [];
}

abbrev stat : TestStatistics
stat = record {
  test_current = none;
  suite_current = none;
  messages = 0 ∷ 0 ∷ 0 ∷ 1 ∷ 0 ∷ 0 ∷ 4 ∷ 9 ∷ [];
  sigsegv = 1;
  passed = 1;
  failed = 1;
  suite_info_list = list_info ∷ [];
  readings = 6;
}

abbrev show_time : ℕ → ℕ → Str
show_time a b = bytes "0.5"

passed_case_fits : CaseFits list_suite passed_case
passed_case_fits = record {
  case = case_named (bytes "append");
  found = refl;
  ran = unfold expected in refl;
  valid = unfold test_validate_name in refl;
  short = omega arith;
}

fault_case_fits : CaseFits list_suite fault_case
fault_case_fits = record {
  case = case_named (bytes "cut");
  found = refl;
  ran = unfold expected in refl;
  valid = unfold test_validate_name in refl;
  short = omega arith;
}

list_info_fits : SuiteFits suites list_info
list_info_fits = record {
  suite = list_suite;
  found = refl;
  valid = unfold test_validate_name in refl;
  short = omega arith;
  cases = (passed_case_fits, (fault_case_fits, tt));
}

read-put_file_example :
    (file : Str) × (put_file show_time suites stat [] ≡ ok file)
    × (read file ≡ map as_pair (stat_entries show_time suites stat))
read-put_file_example =
    read-put_file show_time suites (λ a b. unfold one_line in refl) stat (list_info_fits, tt) refl

report_replace-join_example :
    report_replace
      (join percent_s (bytes "sort ") (bytes " | tee " ∷ bytes ".log" ∷ []))
      (bytes "out")
    ≡ some (join (bytes "out") (bytes "sort ") (bytes " | tee " ∷ bytes ".log" ∷ []))
report_replace-join_example =
    report_replace-join (bytes "sort ") (bytes " | tee " ∷ bytes ".log" ∷ []) (bytes "out")
      (unfold find_percent_s in refl)
      (unfold find_percent_s in refl, (unfold find_percent_s in refl, tt))

template_replaced :
    report_replace (bytes "sort %s | tee %s.log") (bytes "out")
    ≡ some (bytes "sort out | tee out.log")
unfolding report_replace
template_replaced = refl

abbrev show_quotient : ℕ → ℕ → Str
show_quotient a b = bytes "2.00"

strip-test_report_print_example :
    (test_report_print show_quotient suites stat 4 true >>= λ s. ok (strip s))
    ≡ test_report_print show_quotient suites stat 4 false
strip-test_report_print_example =
    strip-test_report_print show_quotient (λ a b. (refl, (refl, (refl, (refl, tt))))) suites
      (
        (
          (literal (bytes "list") refl),
          (literal (bytes "append") refl, (literal (bytes "cut") refl, tt)),
        ),
        tt,
      )
      stat 4

-- Two megabytes are shown with the number of their bytes.
size_of_megabytes :
    humanly_readable_size (λ a b. show_nat (a / b)) 128 (2 * 1024 * 1024) ≡ bytes "2097152 MB"
unfolding humanly_readable_size show_nat digits decimal_digit
size_of_megabytes = refl

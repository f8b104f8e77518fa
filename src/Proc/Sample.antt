-- ===== src/Proc/Sample.antt =====
-- A line of /proc/<pid>/stat for the tests, and a system on which every process has it.
use cphf.Base.{refl, some, arith}
use cphf.Text.{codes, Text}
use cphf.Env.{Env}
use cphf.Env.Sample.{sample_env}
use cphf.Base.{true, false, arith}
use cphf.Proc.Stat.{formats, format_1, format_2, format_3, format_4, format_5}
use cphf.Proc.Stat.Line.{Values, AreValues, Fields, AreFields, stat_line}

-- A line of /proc/<pid>/stat, of which each number is its own place in the line, but one.
abbrev pub first_values : Values format_1
first_values = (
  (false, 1),
  (
    codes "(sh)",
    (
      b'S',
      (
        (false, 4),
        ((false, 5), ((false, 6), ((false, 7), ((true, 1), ((false, 9), ((false, 10), tt)))))),
      ),
    ),
  ),
)

first_values-AreValues : AreValues format_1 first_values
first_values-AreValues = (
  omega arith,
  (
    (omega arith, (refl, (refl, (refl, (refl, tt))))),
    (
      refl,
      (
        omega arith,
        (
          omega arith,
          (omega arith, (omega arith, (omega arith, (omega arith, (omega arith, tt))))),
        ),
      ),
    ),
  ),
)

abbrev pub second_values : Values format_2
second_values = (
  (false, 11),
  (
    (false, 12),
    (
      (false, 13),
      (
        (false, 14),
        (
          (false, 15),
          ((false, 16), ((false, 17), ((false, 18), ((false, 19), ((false, 20), tt))))),
        ),
      ),
    ),
  ),
)

second_values-AreValues : AreValues format_2 second_values
second_values-AreValues = (
  omega arith,
  (
    omega arith,
    (
      omega arith,
      (
        omega arith,
        (
          omega arith,
          (omega arith, (omega arith, (omega arith, (omega arith, (omega arith, tt))))),
        ),
      ),
    ),
  ),
)

abbrev pub third_values : Values format_3
third_values =
    ((false, 21), ((false, 22), ((false, 23), ((false, 24), ((false, 25), ((false, 26), tt))))))

third_values-AreValues : AreValues format_3 third_values
third_values-AreValues =
    (omega arith, (omega arith, (omega arith, (omega arith, (omega arith, (omega arith, tt))))))

abbrev pub fourth_values : Values format_4
fourth_values = ((false, 27), ((false, 28), ((false, 29), ((false, 30), tt))))

fourth_values-AreValues : AreValues format_4 fourth_values
fourth_values-AreValues = (omega arith, (omega arith, (omega arith, (omega arith, tt))))

abbrev pub fifth_values : Values format_5
fifth_values = (
  (false, 31),
  (
    (false, 32),
    (
      (false, 33),
      (
        (false, 34),
        (
          (false, 35),
          (
            (false, 36),
            (
              (false, 37),
              (
                (false, 38),
                (
                  (false, 39),
                  (
                    (false, 40),
                    (
                      (false, 41),
                      (
                        (false, 42),
                        (
                          (false, 43),
                          ((false, 44), ((false, 45), ((false, 46), ((false, 47), tt)))),
                        ),
                      ),
                    ),
                  ),
                ),
              ),
            ),
          ),
        ),
      ),
    ),
  ),
)

fifth_values-AreValues : AreValues format_5 fifth_values
fifth_values-AreValues = (
  omega arith,
  (
    omega arith,
    (
      omega arith,
      (
        omega arith,
        (
          omega arith,
          (
            omega arith,
            (
              omega arith,
              (
                omega arith,
                (
                  omega arith,
                  (
                    omega arith,
                    (
                      omega arith,
                      (
                        omega arith,
                        (
                          omega arith,
                          (omega arith, (omega arith, (omega arith, (omega arith, tt)))),
                        ),
                      ),
                    ),
                  ),
                ),
              ),
            ),
          ),
        ),
      ),
    ),
  ),
)

abbrev pub sample_values : Fields formats
sample_values = (first_values, (second_values, (third_values, (fourth_values, (fifth_values, tt)))))

pub sample_values-AreFields : AreFields formats sample_values
sample_values-AreFields = (
  first_values-AreValues,
  (
    second_values-AreValues,
    (third_values-AreValues, (fourth_values-AreValues, (fifth_values-AreValues, tt))),
  ),
)

-- The five fields that are not scanned, and the end of the line.
abbrev pub sample_rest : Text
sample_rest = codes " 48 49 50 51 52\n"

abbrev pub stat_env : Env
stat_env = record sample_env { open_file = λ path. some (stat_line sample_values sample_rest) }

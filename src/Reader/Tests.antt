-- ===== src/Reader/Tests.antt =====
-- Runs of the functions that the readers share.
use cphf.Base.{◌++◌, ◌∷◌, ◌≡◌, refl, ◌+◌, ◌^◌, arith, [], List}
use cphf.Text.{codes, decimal, read_digits}
use cphf.Env.Sample.{sample_env}
use cphf.Reader.{format, print_int, print_two, read_etime, read_perms}
use cphf.Reader.Perms.{read_perms-letters}
use cphf.Reader.Device.{Driver, name_device}
use cphf.Reader.Device.Fuel.{build_loop-fuel}
use cphf.Reader.Device.{build_loop}
use cphf.Reader.Device.Listing.{
  Line, IsLine, drivers_of, render_lines, build_device_map-drivers, render_line,
}
use cphf.Reader.Device.{build_device_map}
use cphf.Base.{All, some, ok}
use cphf.Env.{Env}
use cphf.Reader.Device.Drivers.{add_drivers, driver_of, named_by, name_device-known}
use cphf.Reader.Format.{seconds_of, seconds_of-read_etime, read_digits-format}

format_tests : format (2 ^ 32 + 5) ≡ codes "5"
unfolding format decimal
format_tests = refl

read_perms_tests :
    (read_perms 0o100644 ≡ codes "-rw-r--r--") × (read_perms 0o041777 ≡ codes "drwxrwxrwt")
unfolding read_perms
read_perms_tests = (refl, refl)

read_etime_tests : read_etime sample_env 366100 ≡ codes "1:01:01"
unfolding read_etime decimal print_int print_two
read_etime_tests = refl

seconds_of-read_etime_example : seconds_of (read_etime sample_env 366100) ≡ 3661
seconds_of-read_etime_example = seconds_of-read_etime sample_env 366100 (omega arith) (omega arith)

read_digits-format_example : read_digits 0 (format (2 ^ 32 + 5)) ≡ (5, [])
read_digits-format_example = read_digits-format (2 ^ 32 + 5)

-- Two drivers of one major number, of which the first is known.
abbrev sample_drivers : List Driver
sample_drivers =
    record { label = codes "tty"; major = 4; minors = record { min = 1; max = 63 } }
    ∷ record { label = codes "ttyS"; major = 4; minors = record { min = 64; max = 111 } }
    ∷ []

name_device-known_example :
    name_device (add_drivers sample_drivers []) 4 65 ≡ named_by (driver_of 4 sample_drivers) 65
name_device-known_example = name_device-known sample_drivers 4 65 (omega arith, (omega arith, tt))

lost_driver : named_by (driver_of 4 sample_drivers) 65 ≡ codes "?"
unfolding named_by driver_of
lost_driver = refl

build_loop-fuel_example :
    build_loop 40 (codes "serial /dev/ttyS 4 64-111 serial\n") []
    ≡ build_loop 34 (codes "serial /dev/ttyS 4 64-111 serial\n") []
build_loop-fuel_example =
    build_loop-fuel 40 34 (codes "serial /dev/ttyS 4 64-111 serial\n") [] (omega arith)
      (omega arith)

-- Two lines of the list of a running system.
abbrev sample_lines : List Line
sample_lines =
    record {
      name = codes "/dev/tty";
      name_pad = 12;
      driver = record { label = codes "tty"; major = 5; minors = record { min = 0; max = 0 } };
      label_pad = 7;
      major_pad = 6;
      minors_pad = 0;
      kind = codes "system:/dev/tty";
    }
    ∷ record {
      name = codes "pty_slave";
      name_pad = 11;
      driver = record {
        label = codes "pts";
        major = 136;
        minors = record { min = 0; max = 1048575 };
      };
      label_pad = 5;
      major_pad = 0;
      minors_pad = 0;
      kind = codes "pty:slave";
    }
    ∷ []

sample_text :
    render_lines sample_lines
    ≡ codes "/dev/tty             /dev/tty        5       0 system:/dev/tty\n"
      ++ codes "pty_slave            /dev/pts      136 0-1048575 pty:slave\n"
unfolding render_lines render_line decimal
sample_text = refl

abbrev drivers_env : Env
drivers_env = record sample_env { open_file = λ path. some (render_lines sample_lines) }

sample_lines-IsLine : All IsLine sample_lines
sample_lines-IsLine = (
  (
    (omega arith, ground arith),
    ground arith,
    omega arith,
    omega arith,
    omega arith,
    (ground arith, refl, (omega arith, ground arith)),
  ),
  (
    (
      (omega arith, ground arith),
      ground arith,
      omega arith,
      omega arith,
      omega arith,
      (ground arith, refl, (omega arith, ground arith)),
    ),
    tt,
  ),
)

build_device_map-drivers_example :
    build_device_map drivers_env [] ≡ ok (add_drivers (drivers_of sample_lines) [])
build_device_map-drivers_example =
    build_device_map-drivers drivers_env sample_lines sample_lines-IsLine refl

read_perms-letters_example : read_perms 0o102755 ≡ codes "-rwsr-xr-x"
read_perms-letters_example =
    read_perms-letters 8 2 7 5 5 (omega arith) (omega arith) (omega arith) (omega arith)
      (omega arith)

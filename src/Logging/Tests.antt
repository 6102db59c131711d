-- ===== src/Logging/Tests.antt =====
-- Lines that `log` of src/base/Logging.cpp writes, and the theorems at numbers and at an entry.
use libsaf.Common.{ℕ, ◌≡◌, refl, arith, List, some, ok, fault, out_of_bounds, Returns}
use libsaf.Decimal.{ℤ, pos, negsuc, convert, convert_loop, digit_of}
use libsaf.Decimal.RoundTrip.{convert-Converted}
use libsaf.AsyncLogger.{init, avail, buffer_append}
use libsaf.Logging.{
  codes, Entry, log, info, error, line_of, append_error, append_time, append_integer, append_place,
  append_strings, clock_of, find_last_of,
}
use libsaf.Logging.Line.{Fits}
use libsaf.Logging.Filter.{Logged, log-Logged}

abbrev message : ℤ → List ℕ
message e = codes "Broken pipe"

abbrev failed_write : Entry
failed_write = record {
  level = error;
  file = codes "Socket.cpp";
  line = pos 75;
  function = some (codes "accept");
  error = pos 32;
  content = codes "closed";
  time_str = codes "Wed Jun 30 21:49:08 1993\n";
  ms = 1007;
}

failed_write_line :
    line_of message failed_write
    ≡ ok (codes "ERROR - Broken pipe errno(32) - 21:49:08:7 - Socket.cpp(75) - accept: closed\n")
unfolding line_of append_error append_time append_integer append_place append_strings clock_of
    find_last_of avail convert convert_loop digit_of buffer_append
failed_write_line = refl

failed_write-Fits : Fits message failed_write 32 75 (codes "21:49:08")
failed_write-Fits = record {
  error = refl;
  line = refl;
  error_small = omega arith;
  line_small = omega arith;
  time = record {
    date = codes "Wed Jun 30";
    year = codes "1993\n";
    layout = refl;
    clock_whole = ground arith;
    year_whole = ground arith;
  };
  content = omega arith;
  room = omega arith;
}

log-Logged_example :
    Returns
      (Logged message info init failed_write 32 75 (codes "21:49:08"))
      (log message info init failed_write)
log-Logged_example =
    log-Logged message info init failed_write 32 75 (codes "21:49:08") failed_write-Fits

convert-Converted_example : convert (negsuc 4) ≡ fault out_of_bounds
convert-Converted_example = convert-Converted (negsuc 4)

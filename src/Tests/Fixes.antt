-- ===== src/Tests/Fixes.antt =====
-- GNSS fixes, and the fields of a request.
use embedded_client.Tests.Requests.{small-IsValid}
use embedded_client.Beacons.Insert.Order.{IsValid}
use embedded_client.Tests.Encoding.{logging, logging_counts}
use embedded_client.Encode.Writes.{Write}
use embedded_client.Tests.Samples.{small_request, sample_time}
use embedded_client.Types.{Rctx, Gnss}
use embedded_client.Float.{fin, nan, of_int}
use embedded_client.Common.{none, pos, some, refl, negsuc, [], ◌-◌, ◌-ℤ◌, List, neg, ◌≡◌, arith}
use embedded_client.Gnss.{Fix, sky_add_gnss, gnss_age, stored}
use embedded_client.Gnss.Limits.{AddsFix, sky_add_gnss-AddsFix}
use embedded_client.Dispatch.{rq_callback}
use embedded_client.Dispatch.Sends.{Sends, rq_callback-Sends}
use embedded_client.Dispatch.Wire.{Written}

-- A position at a speed that is not known.
abbrev sample_fix : Fix
sample_fix = record {
  lat = of_int (pos 45);
  lon = of_int (neg 71);
  hpe = 12;
  altitude = nan;
  vpe = 0;
  speed = nan;
  bearing = fin (pos 0);
  nsat = 7;
  timestamp = pos (sample_time - 5);
}

abbrev fixed_request : Rctx
fixed_request = record small_request { gnss = stored sample_fix 5 }

sky_add_gnss-AddsFix_example :
    AddsFix small_request sample_fix (sky_add_gnss small_request sample_fix)
sky_add_gnss-AddsFix_example = sky_add_gnss-AddsFix small_request sample_fix (omega arith)

-- The fix is five seconds old when the request is opened.
fix_age : gnss_age sample_time sample_fix.timestamp ≡ some 5
unfolding gnss_age ◌-ℤ◌
fix_age = refl

-- A timestamp of -1, which the documentation calls unknown, is refused.
unknown_timestamp : gnss_age sample_time (negsuc 0) ≡ none
unfolding gnss_age
unknown_timestamp = refl

with_fix : (r : Rctx) (g : Gnss) → IsValid r → IsValid (record r { gnss = g })
with_fix r g v = record { registered = v.registered; ordered = v.ordered; slots = v.slots }

fixed-IsValid : IsValid fixed_request
fixed-IsValid = with_fix small_request (stored sample_fix 5) small-IsValid

rq_callback-Sends_example :
    (ws : List Write) × Sends logging logging_counts (pos 0) fixed_request 9 ws
    × Written logging logging_counts ws [] (rq_callback (pos 0) logging (some fixed_request) 9 [])
rq_callback-Sends_example =
    rq_callback-Sends logging logging_counts (pos 0) fixed_request 9 [] fixed-IsValid

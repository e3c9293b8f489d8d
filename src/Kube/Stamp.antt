-- ===== src/Kube/Stamp.antt =====
-- `restartStamp` of internal/kube/client.go: a time in UTC in the layout RFC3339Nano, from the year 1970 on.
pub mod Laws
use Prim.Native.Char.{char}
use Prim.Native.String
use deploy_gateway.Base.{
  ℕ, zero, suc, ◌+◌, ◌-◌, ◌*◌, ◌/◌, ◌%◌, String, ◌<>◌, eqb, ltb, leb, if◌then◌else◌,
}
use deploy_gateway.Base.Text.{digit, show}
use deploy_gateway.Store.{Time, second}

-- Two digits.
unfoldable pub two : ℕ → String
unfolding show
two n = if ltb n 10 then "0" <> show n else show n

-- A day of the calendar.
pub record Date : Type 0 where
  pub year : ℕ
  pub month : ℕ
  pub day : ℕ

-- The date of a day counted from 1 January 1970. The count goes in eras of 400 years, which begin on
-- 1 March.
unfoldable pub date_of : ℕ → Date
date_of days =
    let era = (days + 719_468) / 146_097 in
    let doe = (days + 719_468) % 146_097 in
    let yoe = (doe + doe / 36_524 - (doe / 1_460 + doe / 146_096)) / 365 in
    let doy = doe + yoe / 100 - (365 * yoe + yoe / 4) in
    let mp = (5 * doy + 2) / 153 in
    let month = if ltb mp 10 then mp + 3 else mp - 9 in
    record {
      year = yoe + era * 400 + (if leb month 2 then 1 else 0);
      month = month;
      day = doy - (153 * mp + 2) / 5 + 1;
    }

-- The seconds since 1970, up to the fraction.
unfoldable pub date_time : ℕ → String
unfolding two date_of show
date_time n =
    let date = date_of (n / 86_400) in
    show date.year
    <> ("-"
        <> (two date.month
            <> ("-"
                <> (two date.day
                    <> ("T"
                        <> (two (n / 3_600 % 24)
                            <> (":" <> (two (n / 60 % 60) <> (":" <> two (n % 60))))))))))

-- The last digits of a number, without zeros at the end.
unfoldable pub fraction_onto : ℕ → ℕ → String → String
unfolding digit
fraction_onto zero n tail = tail
fraction_onto (suc k) n String.[] =
    fraction_onto k (n / 10) (if eqb (n % 10) 0 then "" else String.◌∷◌ (digit (n % 10)) "")
fraction_onto (suc k) n (String.◌∷◌ c tail) =
    fraction_onto k (n / 10) (String.◌∷◌ (digit (n % 10)) (String.◌∷◌ c tail))

abbrev pub with_point : String → String
with_point String.[] = ""
with_point (String.◌∷◌ c digits) = String.◌∷◌ (char 46 tt) (String.◌∷◌ c digits)

-- `restartStamp`, of what `time.Now()` answers
unfoldable pub restart_stamp : Time → String
unfolding date_time fraction_onto
restart_stamp t = date_time (t / second) <> (with_point (fraction_onto 9 (t % second) "") <> "Z")

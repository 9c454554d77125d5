-- ===== src/TreeView/Speed.antt =====
-- frontend/src/pages/TreeView.tsx: the label of an interface's row. A quotient by a power of ten is
-- shown exactly, as JavaScript shows those of up to fifteen digits.
use Prim.Native.String.{◌++◌ as str_append}
use datacenter_manager.Prelude.{
  ℕ, zero, suc, ◌*◌, ◌/◌, ◌%◌, String, Option, none, some, leb, ◌==◌, if◌then◌else◌,
}
use datacenter_manager.Prelude.Int.{pos}
use datacenter_manager.Prelude.Numerals.{show_int}
use datacenter_manager.InfraRecords.{NetworkInterfaceRead}

abbrev show : ℕ → String
show n = show_int (pos n)

-- The digits after the point of `r / unit`, less the zeros at the end, `k` at most.
unfoldable pub decimals : ℕ → ℕ → ℕ → String
decimals zero unit r = ""
decimals (suc k) unit r =
    let rest = decimals k unit ((r * 10) % suc unit) in
    if r == 0 then "" else str_append (show ((r * 10) / suc unit)) rest

-- `${n / (unit + 1)}`
unfoldable pub show_quotient : ℕ → ℕ → ℕ → String
show_quotient k unit n =
    let r = n % suc unit in
    let whole = show (n / suc unit) in
    if r == 0 then whole else str_append whole (str_append "." (decimals k unit r))

unfoldable pub speed_str : Option ℕ → String
speed_str none = ""
speed_str (some n) =
    if n == 0
    then ""
    else (if leb 1000000 n
        then str_append " — " (str_append (show_quotient 6 999999 n) "T")
        else (if leb 1000 n
            then str_append " — " (str_append (show_quotient 3 999 n) "G")
            else str_append " — " (str_append (show n) "M")))

unfoldable pub interface_label : NetworkInterfaceRead → String
interface_label i = str_append i.name (speed_str i.speed_mbps)

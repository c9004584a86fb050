-- ===== src/UdpClient/Port/Laws.antt =====
-- Which ports are accepted.
use server_client_app.Base.{
  ℕ, ◌≤◌, String, ◌≡◌, Option, none, some, ◌&&◌, arith, leb, if◌then◌else◌, ok, raised,
}
use server_client_app.Base.Int.{ℤ, pos, parse_int}
use server_client_app.Base.Int.Decimal.{parse_int-str}
use server_client_app.Base.Text.{str}
use server_client_app.UdpClient.Port.{
  max_value, check_port, out_of_range, unprivileged_port_type, port_type,
}

accepted :
    (o : Option ℤ) (p : ℤ)
    → check_port (pos 1024) max_value o ≡ ok p
    → (n : ℕ) × (p ≡ pos n) × (1024 ≤ n) × (n ≤ 65535) × (o ≡ some p)
unfolding check_port
accepted none p h = cc h
accepted (some (pos n)) p h = (n, ground arith, ground arith, ground arith, ground arith)
accepted (some (ℤ.negsuc n)) p h = cc h

-- A port that is accepted is an integer from 1024 to 65535, and the one that the text stands
-- for.
pub port-in_range :
    (value : String) (p : ℤ)
    → port_type value ≡ ok p
    → (n : ℕ) × (p ≡ pos n) × (1024 ≤ n) × (n ≤ 65535) × (parse_int value ≡ some p)
unfolding unprivileged_port_type
port-in_range value p h = accepted (parse_int value) p h

-- The decimal text of a number is accepted as a port exactly when the number is in the range,
-- and refused with the message of the range otherwise.
pub port-str :
    (n : ℕ)
    → port_type (str n) ≡ (
        if leb 1024 n && leb n 65535
        then ok (pos n)
        else raised (out_of_range (pos 1024) max_value))
unfolding unprivileged_port_type
port-str n = rw (parse_int-str n, unprivileged_port_type)

-- ===== src/UdpClient/Port.antt =====
-- pcom_hw2_udp_client/utils/unpriv_port.py
pub mod Laws
use Prim.Native.String.{◌++◌}
use server_client_app.Base.{
  ℕ, String, ◌≡◌, refl, Option, none, some, ◌&&◌, if◌then◌else◌, Exn, Result, ok, raised,
}
use server_client_app.Base.Int.{ℤ, pos, leb_ℤ, parse_int}
use server_client_app.Base.Text.{str}

abbrev pub min_value : ℤ
min_value = pos 1024

abbrev pub max_value : ℤ
max_value = pos 65535

-- '{}'.format of an integer
unfoldable pub show_int : ℤ → String
unfolding str
show_int (pos n) = str n
show_int (ℤ.negsuc n) = "-" ++ str (ℕ.suc n)

unfoldable pub not_integer : Exn
not_integer = Exn.value_error "The port should be an integer."

unfoldable pub out_of_range : ℤ → ℤ → Exn
unfolding show_int
out_of_range low high =
    Exn.value_error ("The port should be between " ++ show_int low ++ " and " ++ show_int high)

check_port : ℤ → ℤ → Option ℤ → Result ℤ
unfolding not_integer out_of_range
check_port low high none = raised not_integer
check_port low high (some int_value) =
    if leb_ℤ low int_value && leb_ℤ int_value high
    then ok int_value
    else raised (out_of_range low high)

unfoldable pub unprivileged_port_type : String → ℤ → ℤ → Result ℤ
unfolding check_port
unprivileged_port_type value low high = check_port low high (parse_int value)

-- The argument type, with the defaults of the bounds.
abbrev pub port_type : String → Result ℤ
port_type value = unprivileged_port_type value (pos 1024) max_value

-- The variable's name is not used.
unfoldable pub get_unprivileged_port_meta : String → ℤ → ℤ → String
unfolding show_int
get_unprivileged_port_meta var_name low high = "(" ++ show_int low ++ "-" ++ show_int high ++ ")"

meta_default : get_unprivileged_port_meta "source-port" min_value max_value ≡ "(1024-65535)"
unfolding get_unprivileged_port_meta
meta_default = refl

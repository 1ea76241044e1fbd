-- ===== src/Voip/Media.antt =====
-- The negotiation of a media stream in rfcvoip/VoIP/VoIP.py: its direction, and the addresses and
-- ports that its connections stand for. An address is an IP literal, by its number, or another text.
pub mod Direction
pub mod Targets
pub mod Offer
mod Tests
use rfcvoip.Prelude.{
  ℕ, zero, suc, ◌+◌, ◌-◌, ◌^◌, Bool, true, false, ◌&&◌, ◌||◌, not, Option, none, some, List, [],
  ◌∷◌, ◌++◌, length, range_from, ltb, leb, ◌==◌, if◌then◌else◌,
}
use rfcvoip.Prelude.Int.{ℤ, pos, negsuc}
use rfcvoip.Rtp.TransmitType.{TransmitType, recvonly, sendrecv, sendonly, inactive}

-- `t in (TransmitType.SENDRECV, TransmitType.SENDONLY)`
abbrev pub sends : TransmitType → Bool
sends sendrecv = true
sends sendonly = true
sends recvonly = false
sends inactive = false

-- `t in (TransmitType.SENDRECV, TransmitType.RECVONLY)`
abbrev pub receives : TransmitType → Bool
receives sendrecv = true
receives recvonly = true
receives sendonly = false
receives inactive = false

-- `_negotiate_local_transmit_type`
pub negotiate_local_transmit_type : (remote desired : TransmitType) → TransmitType
negotiate_local_transmit_type remote desired =
    let can_send = sends desired && receives remote in
    let can_recv = receives desired && sends remote in
    if can_send && can_recv
    then sendrecv
    else if can_send
    then sendonly
    else if can_recv
    then recvonly
    else inactive

pub data Version : Type 0 where
  ipv4 ipv6 : Version

pub data Address : Type 0 where
  literal : Version → (number : ℕ) → Address
  other : (text : List ℕ) → Address

abbrev pub max_prefixlen : Version → ℕ
max_prefixlen ipv4 = 32
max_prefixlen ipv6 = 128

-- The `RTPParseError`s, one constructor for each place that raises them.
pub data MediaError : Type 0 where
  not_a_literal address_overflow count_not_positive count_too_large port_out_of_range
        ports_too_high :
      MediaError

pub data Checked {ℓ} (A : Type ℓ) : Type ℓ where
  failed : (error : MediaError) → Checked A
  passed : (value : A) → Checked A

infixl 5 ◌>>=◌
abbrev pub ◌>>=◌ {ℓ κ} : {A : Type ℓ} {B : Type κ} → Checked A → (A → Checked B) → Checked B
failed error >>= next = failed error
passed value >>= next = next value

-- A connection of the session description; `none` is a missing count.
pub record Connection : Type 0 where
  pub address : Address
  pub address_count : Option ℤ

-- The dict that the expansion appends for one address.
pub record Expanded : Type 0 where
  pub address : Address
  pub source_address : Address
  pub source_address_count : ℕ
  pub connection_index : ℕ

-- `_connection_address_at`
pub connection_address_at : Address → (offset : ℕ) → Checked Address
connection_address_at address zero = passed address
connection_address_at (other text) (suc offset) = failed not_a_literal
connection_address_at (literal v n) (suc offset) =
    if leb (2 ^ max_prefixlen v) (n + suc offset)
    then failed address_overflow
    else passed (literal v (n + suc offset))

-- `int(count or 1)`: a missing count and 0 are 1.
abbrev pub count_of : Option ℤ → ℤ
count_of none = pos 1
count_of (some (pos zero)) = pos 1
count_of (some c) = c

-- The loop over `range(address_count)`, from an offset on.
pub expand_offsets : Connection → (count offset todo : ℕ) → List Expanded → Checked (List Expanded)
expand_offsets c count offset zero expanded = passed expanded
expand_offsets c count offset (suc todo) expanded =
    connection_address_at c.address offset >>= λ address. expand_offsets c count (suc offset) todo (
      expanded
      ++ record {
        address = address;
        source_address = c.address;
        source_address_count = count;
        connection_index = length expanded;
      }
        ∷ [])

abbrev pub expand_counted : ℤ → Connection → List Expanded → Checked (List Expanded)
expand_counted (negsuc n) c expanded = failed count_not_positive
expand_counted (pos zero) c expanded = failed count_not_positive
expand_counted (pos (suc n)) c expanded =
    if ltb (65535 - length expanded) (suc n)
    then failed count_too_large
    else expand_offsets c (suc n) 0 (suc n) expanded

-- The loop over the connections.
pub expand_connections : List Connection → List Expanded → Checked (List Expanded)
expand_connections [] expanded = passed expanded
expand_connections (c ∷ cs) expanded =
    expand_counted (count_of c.address_count) c expanded >>= expand_connections cs

-- `_media_connections`: those of the media section, or else of the session, or else all of the body.
abbrev pub media_connections :
    (media : List Connection) → (session all : Option (List Connection)) → List Connection
media_connections (c ∷ cs) session all = c ∷ cs
media_connections [] (some session) all = session
media_connections [] none (some all) = all
media_connections [] none none = []

-- `_expanded_media_connections`
pub expanded_media_connections :
    (media : List Connection) → (session all : Option (List Connection)) → Checked (List Expanded)
expanded_media_connections media session all =
    expand_connections (media_connections media session all) []

-- A target: the address, the port and the connection.
pub record Target : Type 0 where
  pub address : Address
  pub port : ℕ
  pub connection : Expanded

abbrev pub number_targets : (base index : ℕ) → List Expanded → List Target
number_targets base index [] = []
number_targets base index (e ∷ es) =
    record { address = e.address; port = base + index; connection = e }
    ∷ number_targets base (suc index) es

-- `remote_base_port + len(connections) - 1 > 65535`
abbrev pub within_ports : (base : ℕ) → List Expanded → Checked (List Target)
within_ports base expanded =
    if ltb 65535 (base + length expanded - 1)
    then failed ports_too_high
    else passed (number_targets base 0 expanded)

-- `_media_rtp_targets`
pub media_rtp_targets :
    (media : List Connection)
    → (session all : Option (List Connection)) → (baseport : ℤ) → Checked (List Target)
media_rtp_targets media session all (negsuc n) = failed port_out_of_range
media_rtp_targets media session all (pos base) =
    if ltb base 1 || ltb 65535 base
    then failed port_out_of_range
    else expanded_media_connections media session all >>= within_ports base

abbrev pub same_list : List ℕ → List ℕ → Bool
same_list [] [] = true
same_list (x ∷ xs) (y ∷ ys) = x == y && same_list xs ys
same_list _ _ = false

-- `_ports_are_consecutive`
pub ports_are_consecutive : List ℕ → Bool
ports_are_consecutive [] = true
ports_are_consecutive (port ∷ ports) =
    same_list (port ∷ ports) (range_from port (suc (length ports)))

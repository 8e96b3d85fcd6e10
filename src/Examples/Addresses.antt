-- ===== src/Examples/Addresses.antt =====
-- Addresses of a small network, as src/client.cpp meets them.
use dfss.Base.{refl}
use dfss.Ring.{octet}
use dfss.Ring.Search.{HasOctet}
use dfss.Text.{Str, codes}
use dfss.Text.Number.{atoi, signed, digits}
use dfss.Text.Split.{boost, tokens, push_byte}

abbrev pub host5 : Str
host5 = codes "10.0.0.5"

abbrev pub host20 : Str
host20 = codes "10.0.0.20"

abbrev pub host30 : Str
host30 = codes "10.0.0.30"

abbrev pub host40 : Str
host40 = codes "10.0.0.40"

pub octet5 : HasOctet boost host5
unfolding octet tokens push_byte atoi signed digits
octet5 = refl

pub octet20 : HasOctet boost host20
unfolding octet tokens push_byte atoi signed digits
octet20 = refl

pub octet30 : HasOctet boost host30
unfolding octet tokens push_byte atoi signed digits
octet30 = refl

pub octet40 : HasOctet boost host40
unfolding octet tokens push_byte atoi signed digits
octet40 = refl

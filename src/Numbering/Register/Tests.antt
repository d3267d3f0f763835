-- ===== src/Numbering/Register/Tests.antt =====
-- Registrations at a switch with DNIC 3100, SGC 7 of two digits and SIC 5.
use vfrs.Common.{◌≡◌, refl, none, some, [], ◌∷◌}
use vfrs.Numbering.{codes, padded, decimal, expand_from, piece, starts, expand}
use vfrs.Numbering.Register.{
  Registry, Request, Subscriber, same_text, only_zeros, is_all_zeros, only_digits, registered,
  admits, update_svc, update_ports, alias_entry, add_mode,
}
use vfrs.Numbering.Register.Laws.{Registers, add_mode-Registers}

-- "310007541" on the port "a"
abbrev first : Subscriber
first = record {
  port_name = 97 ∷ [];
  x121_number = 51 ∷ 49 ∷ 48 ∷ 48 ∷ 48 ∷ 55 ∷ 53 ∷ 52 ∷ 49 ∷ [];
  reverse_charging_acceptance = 1;
  reverse_charging_prevention = 0;
  number_type = 1;
}

abbrev before : Registry
before = record {
  numbering = record { dnic = 3100; sgclen = 2; sgc = 7; siclen = 0; sic = 5 };
  subnumlen = 4;
  subscribers = first ∷ [];
  ports = record { name = 98 ∷ []; svc_ctx = none } ∷ [];
}

-- "42" with the automatic prefix, on the port "b"
abbrev request : Request
request = record {
  port_name = 98 ∷ [];
  mode = some (97 ∷ 117 ∷ 116 ∷ 111 ∷ 112 ∷ 114 ∷ 101 ∷ 102 ∷ 105 ∷ 120 ∷ []);
  num_type = none;
  raw_number = 52 ∷ 50 ∷ [];
  alias_type = none;
  raw_alias = none;
  rev_charge_acc = 0;
  rev_charge_prev = 1;
}

abbrev after : Registry
after = record before {
  subscribers =
      first
      ∷ record {
        port_name = 98 ∷ [];
        x121_number = 51 ∷ 49 ∷ 48 ∷ 48 ∷ 48 ∷ 55 ∷ 53 ∷ 52 ∷ 50 ∷ [];
        reverse_charging_acceptance = 0;
        reverse_charging_prevention = 1;
        number_type = 1;
      }
      ∷ [];
}

accepted : add_mode before request ≡ some after
unfolding expand codes padded decimal expand_from piece starts same_text only_zeros is_all_zeros
    only_digits registered admits update_svc update_ports alias_entry add_mode
accepted = refl

first_there : registered before.subscribers first.x121_number ≡ some first
unfolding registered same_text
first_there = refl

add_mode-Registers_example : Registers before request after
add_mode-Registers_example = add_mode-Registers before request after accepted

-- ===== src/Admin/Tests.antt =====
-- Knocks on the door of admin/admin.go.
use frps_gateway.Base.{String, ◌≡◌, refl, true, some, [], arith, second}
use frps_gateway.Admin.Knock.{
  KnockConfig, Gates, Answer, knocked, to_login, knock_door, has_gate, prune_knock,
}
use frps_gateway.Admin.Knock.Capacity.{Bounded, knock_door-Bounded}

abbrev same_text : String → String
same_text s = s

abbrev two_knocks : KnockConfig
two_knocks = record {
  secret = "open-sesame-open-sesame-1";
  hits = 2;
  window = 30000000000;
  ttl = 300000000000;
}

abbrev closed : Gates
closed = record { progress = []; gates = [] }

abbrev after_one : Answer × Gates
after_one =
    knock_door same_text same_text two_knocks "open-sesame-open-sesame-1" "" (some "p") second
      (some "g") second closed

abbrev after_two : Answer × Gates
after_two =
    knock_door same_text same_text two_knocks "open-sesame-open-sesame-1" "p" (some "q") second
      (some "g") second after_one.1

first_knock : after_one.0 ≡ knocked "p"
unfolding knock_door prune_knock
first_knock = refl

second_knock : after_two.0 ≡ to_login "g"
unfolding knock_door prune_knock
second_knock = refl

gate_open : (has_gate same_text same_text two_knocks (some "g") second after_two.1).0 ≡ true
unfolding knock_door prune_knock has_gate
gate_open = refl

first_knock-Bounded : Bounded after_one.1
unfolding knock_door prune_knock
first_knock-Bounded = (omega arith, omega arith)

knock_example : Bounded after_two.1
knock_example =
    knock_door-Bounded same_text same_text two_knocks "open-sesame-open-sesame-1" "p" (some "q")
      second (some "g") second after_one.1 first_knock-Bounded

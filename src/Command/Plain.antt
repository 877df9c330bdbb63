-- ===== src/Command/Plain.antt =====
-- Texts with which command/parser.go can run: words between single spaces, each of which is an address.
use Prim.Native.Char.{Char, code}
use frps_gateway.Base.{String, ◌==◌, true, false, some, List, [], ◌∷◌, eqb, if◌then◌else◌}
use frps_gateway.Duration.Parse.Tally.{tallies}
use frps_gateway.Command.{ChatText}

abbrev pub onto_first : Char → List String → List String
onto_first c [] = String.◌∷◌ c String.[] ∷ []
onto_first c (w ∷ ws) = String.◌∷◌ c w ∷ ws

-- Words between single spaces.
abbrev pub words : String → List String
words String.[] = "" ∷ []
words (String.◌∷◌ c s) =
    let rest = words s in if eqb (code c) 32 then "" ∷ rest else onto_first c rest

abbrev pub texts : ChatText
texts = record {
  Ip = String;
  parse_ip = λ s. some s;
  show_ip = λ s. s;
  is_global_unicast = λ s. true;
  is_private = λ s. false;
  is_loopback = λ s. false;
  is_link_local_unicast = λ s. false;
  strip_mentions = λ s. s;
  trim = λ s. s;
  lower = λ s. s;
  fields = words;
  equal_fold = λ a b. a == b;
  is_format = λ c. false;
  quote = λ s. s;
  floats = tallies;
}

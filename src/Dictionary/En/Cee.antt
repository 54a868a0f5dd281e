-- ===== src/Dictionary/En/Cee.antt =====
-- src/dictionary_en.cpp: the words that begin with c, in the order of the array.
use Prim.Native.String.{String}
use cscrypto.Base.{List, [], ◌∷◌}

unfoldable pub c_words_to_cl : List String
c_words_to_cl =
    "cabbage" ∷ "cabin" ∷ "cable" ∷ "cactus" ∷ "cage" ∷ "cake" ∷ "call" ∷ "calm" ∷ "camera" ∷ "camp"
    ∷ "can" ∷ "canal" ∷ "cancel" ∷ "candy" ∷ "cannon" ∷ "canoe" ∷ "canvas" ∷ "canyon" ∷ "capable"
    ∷ "capital" ∷ "captain" ∷ "car" ∷ "carbon" ∷ "card" ∷ "cargo" ∷ "carpet" ∷ "carry" ∷ "cart"
    ∷ "case" ∷ "cash" ∷ "casino" ∷ "castle" ∷ "casual" ∷ "cat" ∷ "catalog" ∷ "catch" ∷ "category"
    ∷ "cattle" ∷ "caught" ∷ "cause" ∷ "caution" ∷ "cave" ∷ "ceiling" ∷ "celery" ∷ "cement"
    ∷ "census" ∷ "century" ∷ "cereal" ∷ "certain" ∷ "chair" ∷ "chalk" ∷ "champion" ∷ "change"
    ∷ "chaos" ∷ "chapter" ∷ "charge" ∷ "chase" ∷ "chat" ∷ "cheap" ∷ "check" ∷ "cheese" ∷ "chef"
    ∷ "cherry" ∷ "chest" ∷ "chicken" ∷ "chief" ∷ "child" ∷ "chimney" ∷ "choice" ∷ "choose"
    ∷ "chronic" ∷ "chuckle" ∷ "chunk" ∷ "churn" ∷ "cigar" ∷ "cinnamon" ∷ "circle" ∷ "citizen"
    ∷ "city" ∷ "civil" ∷ "claim" ∷ "clap" ∷ "clarify" ∷ "claw" ∷ "clay" ∷ "clean" ∷ "clerk"
    ∷ "clever" ∷ "click" ∷ "client" ∷ "cliff" ∷ "climb" ∷ "clinic" ∷ "clip" ∷ "clock" ∷ "clog"
    ∷ "close" ∷ "cloth" ∷ "cloud" ∷ "clown" ∷ "club" ∷ "clump" ∷ "cluster" ∷ "clutch" ∷ []

unfoldable pub c_words_from_co : List String
c_words_from_co =
    "coach" ∷ "coast" ∷ "coconut" ∷ "code" ∷ "coffee" ∷ "coil" ∷ "coin" ∷ "collect" ∷ "color"
    ∷ "column" ∷ "combine" ∷ "come" ∷ "comfort" ∷ "comic" ∷ "common" ∷ "company" ∷ "concert"
    ∷ "conduct" ∷ "confirm" ∷ "congress" ∷ "connect" ∷ "consider" ∷ "control" ∷ "convince" ∷ "cook"
    ∷ "cool" ∷ "copper" ∷ "copy" ∷ "coral" ∷ "core" ∷ "corn" ∷ "correct" ∷ "cost" ∷ "cotton"
    ∷ "couch" ∷ "country" ∷ "couple" ∷ "course" ∷ "cousin" ∷ "cover" ∷ "coyote" ∷ "crack" ∷ "cradle"
    ∷ "craft" ∷ "cram" ∷ "crane" ∷ "crash" ∷ "crater" ∷ "crawl" ∷ "crazy" ∷ "cream" ∷ "credit"
    ∷ "creek" ∷ "crew" ∷ "cricket" ∷ "crime" ∷ "crisp" ∷ "critic" ∷ "crop" ∷ "cross" ∷ "crouch"
    ∷ "crowd" ∷ "crucial" ∷ "cruel" ∷ "cruise" ∷ "crumble" ∷ "crunch" ∷ "crush" ∷ "cry" ∷ "crystal"
    ∷ "cube" ∷ "culture" ∷ "cup" ∷ "cupboard" ∷ "curious" ∷ "current" ∷ "curtain" ∷ "curve"
    ∷ "cushion" ∷ "custom" ∷ "cute" ∷ "cycle" ∷ []

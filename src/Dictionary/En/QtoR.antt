-- ===== src/Dictionary/En/QtoR.antt =====
-- src/dictionary_en.cpp: the words that begin with q, r, in the order of the array.
use Prim.Native.String.{String}
use cscrypto.Base.{List, [], ◌∷◌}

unfoldable pub q_words : List String
q_words = "quality" ∷ "quantum" ∷ "quarter" ∷ "question" ∷ "quick" ∷ "quit" ∷ "quiz" ∷ "quote" ∷ []

unfoldable pub r_words : List String
r_words =
    "rabbit" ∷ "raccoon" ∷ "race" ∷ "rack" ∷ "radar" ∷ "radio" ∷ "rail" ∷ "rain" ∷ "raise" ∷ "rally"
    ∷ "ramp" ∷ "ranch" ∷ "random" ∷ "range" ∷ "rapid" ∷ "rare" ∷ "rate" ∷ "rather" ∷ "raven" ∷ "raw"
    ∷ "razor" ∷ "ready" ∷ "real" ∷ "reason" ∷ "rebel" ∷ "rebuild" ∷ "recall" ∷ "receive" ∷ "recipe"
    ∷ "record" ∷ "recycle" ∷ "reduce" ∷ "reflect" ∷ "reform" ∷ "refuse" ∷ "region" ∷ "regret"
    ∷ "regular" ∷ "reject" ∷ "relax" ∷ "release" ∷ "relief" ∷ "rely" ∷ "remain" ∷ "remember"
    ∷ "remind" ∷ "remove" ∷ "render" ∷ "renew" ∷ "rent" ∷ "reopen" ∷ "repair" ∷ "repeat" ∷ "replace"
    ∷ "report" ∷ "require" ∷ "rescue" ∷ "resemble" ∷ "resist" ∷ "resource" ∷ "response" ∷ "result"
    ∷ "retire" ∷ "retreat" ∷ "return" ∷ "reunion" ∷ "reveal" ∷ "review" ∷ "reward" ∷ "rhythm"
    ∷ "rib" ∷ "ribbon" ∷ "rice" ∷ "rich" ∷ "ride" ∷ "ridge" ∷ "rifle" ∷ "right" ∷ "rigid" ∷ "ring"
    ∷ "riot" ∷ "ripple" ∷ "risk" ∷ "ritual" ∷ "rival" ∷ "river" ∷ "road" ∷ "roast" ∷ "robot"
    ∷ "robust" ∷ "rocket" ∷ "romance" ∷ "roof" ∷ "rookie" ∷ "room" ∷ "rose" ∷ "rotate" ∷ "rough"
    ∷ "round" ∷ "route" ∷ "royal" ∷ "rubber" ∷ "rude" ∷ "rug" ∷ "rule" ∷ "run" ∷ "runway" ∷ "rural"
    ∷ []

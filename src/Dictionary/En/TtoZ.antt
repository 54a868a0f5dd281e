-- ===== src/Dictionary/En/TtoZ.antt =====
-- src/dictionary_en.cpp: the words that begin with t, u, v, w, y, z, in the order of the array.
use Prim.Native.String.{String}
use cscrypto.Base.{List, [], ◌∷◌}

unfoldable pub t_words : List String
t_words =
    "table" ∷ "tackle" ∷ "tag" ∷ "tail" ∷ "talent" ∷ "talk" ∷ "tank" ∷ "tape" ∷ "target" ∷ "task"
    ∷ "taste" ∷ "tattoo" ∷ "taxi" ∷ "teach" ∷ "team" ∷ "tell" ∷ "ten" ∷ "tenant" ∷ "tennis" ∷ "tent"
    ∷ "term" ∷ "test" ∷ "text" ∷ "thank" ∷ "that" ∷ "theme" ∷ "then" ∷ "theory" ∷ "there" ∷ "they"
    ∷ "thing" ∷ "this" ∷ "thought" ∷ "three" ∷ "thrive" ∷ "throw" ∷ "thumb" ∷ "thunder" ∷ "ticket"
    ∷ "tide" ∷ "tiger" ∷ "tilt" ∷ "timber" ∷ "time" ∷ "tiny" ∷ "tip" ∷ "tired" ∷ "tissue" ∷ "title"
    ∷ "toast" ∷ "tobacco" ∷ "today" ∷ "toddler" ∷ "toe" ∷ "together" ∷ "toilet" ∷ "token" ∷ "tomato"
    ∷ "tomorrow" ∷ "tone" ∷ "tongue" ∷ "tonight" ∷ "tool" ∷ "tooth" ∷ "top" ∷ "topic" ∷ "topple"
    ∷ "torch" ∷ "tornado" ∷ "tortoise" ∷ "toss" ∷ "total" ∷ "tourist" ∷ "toward" ∷ "tower" ∷ "town"
    ∷ "toy" ∷ "track" ∷ "trade" ∷ "traffic" ∷ "tragic" ∷ "train" ∷ "transfer" ∷ "trap" ∷ "trash"
    ∷ "travel" ∷ "tray" ∷ "treat" ∷ "tree" ∷ "trend" ∷ "trial" ∷ "tribe" ∷ "trick" ∷ "trigger"
    ∷ "trim" ∷ "trip" ∷ "trophy" ∷ "trouble" ∷ "truck" ∷ "true" ∷ "truly" ∷ "trumpet" ∷ "trust"
    ∷ "truth" ∷ "try" ∷ "tube" ∷ "tuition" ∷ "tumble" ∷ "tuna" ∷ "tunnel" ∷ "turkey" ∷ "turn"
    ∷ "turtle" ∷ "twelve" ∷ "twenty" ∷ "twice" ∷ "twin" ∷ "twist" ∷ "two" ∷ "type" ∷ "typical" ∷ []

unfoldable pub u_words : List String
u_words =
    "ugly" ∷ "umbrella" ∷ "unable" ∷ "unaware" ∷ "uncle" ∷ "uncover" ∷ "under" ∷ "undo" ∷ "unfair"
    ∷ "unfold" ∷ "unhappy" ∷ "uniform" ∷ "unique" ∷ "unit" ∷ "universe" ∷ "unknown" ∷ "unlock"
    ∷ "until" ∷ "unusual" ∷ "unveil" ∷ "update" ∷ "upgrade" ∷ "uphold" ∷ "upon" ∷ "upper" ∷ "upset"
    ∷ "urban" ∷ "urge" ∷ "usage" ∷ "use" ∷ "used" ∷ "useful" ∷ "useless" ∷ "usual" ∷ "utility" ∷ []

unfoldable pub v_words : List String
v_words =
    "vacant" ∷ "vacuum" ∷ "vague" ∷ "valid" ∷ "valley" ∷ "valve" ∷ "van" ∷ "vanish" ∷ "vapor"
    ∷ "various" ∷ "vast" ∷ "vault" ∷ "vehicle" ∷ "velvet" ∷ "vendor" ∷ "venture" ∷ "venue" ∷ "verb"
    ∷ "verify" ∷ "version" ∷ "very" ∷ "vessel" ∷ "veteran" ∷ "viable" ∷ "vibrant" ∷ "vicious"
    ∷ "victory" ∷ "video" ∷ "view" ∷ "village" ∷ "vintage" ∷ "violin" ∷ "virtual" ∷ "virus" ∷ "visa"
    ∷ "visit" ∷ "visual" ∷ "vital" ∷ "vivid" ∷ "vocal" ∷ "voice" ∷ "void" ∷ "volcano" ∷ "volume"
    ∷ "vote" ∷ "voyage" ∷ []

unfoldable pub w_words : List String
w_words =
    "wage" ∷ "wagon" ∷ "wait" ∷ "walk" ∷ "wall" ∷ "walnut" ∷ "want" ∷ "warfare" ∷ "warm" ∷ "warrior"
    ∷ "wash" ∷ "wasp" ∷ "waste" ∷ "water" ∷ "wave" ∷ "way" ∷ "wealth" ∷ "weapon" ∷ "wear" ∷ "weasel"
    ∷ "weather" ∷ "web" ∷ "wedding" ∷ "weekend" ∷ "weird" ∷ "welcome" ∷ "west" ∷ "wet" ∷ "whale"
    ∷ "what" ∷ "wheat" ∷ "wheel" ∷ "when" ∷ "where" ∷ "whip" ∷ "whisper" ∷ "wide" ∷ "width" ∷ "wife"
    ∷ "wild" ∷ "will" ∷ "win" ∷ "window" ∷ "wine" ∷ "wing" ∷ "wink" ∷ "winner" ∷ "winter" ∷ "wire"
    ∷ "wisdom" ∷ "wise" ∷ "wish" ∷ "witness" ∷ "wolf" ∷ "woman" ∷ "wonder" ∷ "wood" ∷ "wool"
    ∷ "word" ∷ "work" ∷ "world" ∷ "worry" ∷ "worth" ∷ "wrap" ∷ "wreck" ∷ "wrestle" ∷ "wrist"
    ∷ "write" ∷ "wrong" ∷ []

unfoldable pub y_words : List String
y_words = "yard" ∷ "year" ∷ "yellow" ∷ "you" ∷ "young" ∷ "youth" ∷ []

unfoldable pub z_words : List String
z_words = "zebra" ∷ "zero" ∷ "zone" ∷ "zoo" ∷ []

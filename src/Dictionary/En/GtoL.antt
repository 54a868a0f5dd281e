-- ===== src/Dictionary/En/GtoL.antt =====
-- src/dictionary_en.cpp: the words that begin with g, h, i, j, k, l, in the order of the array.
use Prim.Native.String.{String}
use cscrypto.Base.{List, [], ◌∷◌}

unfoldable pub g_words : List String
g_words =
    "gadget" ∷ "gain" ∷ "galaxy" ∷ "gallery" ∷ "game" ∷ "gap" ∷ "garage" ∷ "garbage" ∷ "garden"
    ∷ "garlic" ∷ "garment" ∷ "gas" ∷ "gasp" ∷ "gate" ∷ "gather" ∷ "gauge" ∷ "gaze" ∷ "general"
    ∷ "genius" ∷ "genre" ∷ "gentle" ∷ "genuine" ∷ "gesture" ∷ "ghost" ∷ "giant" ∷ "gift" ∷ "giggle"
    ∷ "ginger" ∷ "giraffe" ∷ "girl" ∷ "give" ∷ "glad" ∷ "glance" ∷ "glare" ∷ "glass" ∷ "glide"
    ∷ "glimpse" ∷ "globe" ∷ "gloom" ∷ "glory" ∷ "glove" ∷ "glow" ∷ "glue" ∷ "goat" ∷ "goddess"
    ∷ "gold" ∷ "good" ∷ "goose" ∷ "gorilla" ∷ "gospel" ∷ "gossip" ∷ "govern" ∷ "gown" ∷ "grab"
    ∷ "grace" ∷ "grain" ∷ "grant" ∷ "grape" ∷ "grass" ∷ "gravity" ∷ "great" ∷ "green" ∷ "grid"
    ∷ "grief" ∷ "grit" ∷ "grocery" ∷ "group" ∷ "grow" ∷ "grunt" ∷ "guard" ∷ "guess" ∷ "guide"
    ∷ "guilt" ∷ "guitar" ∷ "gun" ∷ "gym" ∷ []

unfoldable pub h_words : List String
h_words =
    "habit" ∷ "hair" ∷ "half" ∷ "hammer" ∷ "hamster" ∷ "hand" ∷ "happy" ∷ "harbor" ∷ "hard"
    ∷ "harsh" ∷ "harvest" ∷ "hat" ∷ "have" ∷ "hawk" ∷ "hazard" ∷ "head" ∷ "health" ∷ "heart"
    ∷ "heavy" ∷ "hedgehog" ∷ "height" ∷ "hello" ∷ "helmet" ∷ "help" ∷ "hen" ∷ "hero" ∷ "hidden"
    ∷ "high" ∷ "hill" ∷ "hint" ∷ "hip" ∷ "hire" ∷ "history" ∷ "hobby" ∷ "hockey" ∷ "hold" ∷ "hole"
    ∷ "holiday" ∷ "hollow" ∷ "home" ∷ "honey" ∷ "hood" ∷ "hope" ∷ "horn" ∷ "horror" ∷ "horse"
    ∷ "hospital" ∷ "host" ∷ "hotel" ∷ "hour" ∷ "hover" ∷ "hub" ∷ "huge" ∷ "human" ∷ "humble"
    ∷ "humor" ∷ "hundred" ∷ "hungry" ∷ "hunt" ∷ "hurdle" ∷ "hurry" ∷ "hurt" ∷ "husband" ∷ "hybrid"
    ∷ []

unfoldable pub i_words : List String
i_words =
    "ice" ∷ "icon" ∷ "idea" ∷ "identify" ∷ "idle" ∷ "ignore" ∷ "ill" ∷ "illegal" ∷ "illness"
    ∷ "image" ∷ "imitate" ∷ "immense" ∷ "immune" ∷ "impact" ∷ "impose" ∷ "improve" ∷ "impulse"
    ∷ "inch" ∷ "include" ∷ "income" ∷ "increase" ∷ "index" ∷ "indicate" ∷ "indoor" ∷ "industry"
    ∷ "infant" ∷ "inflict" ∷ "inform" ∷ "inhale" ∷ "inherit" ∷ "initial" ∷ "inject" ∷ "injury"
    ∷ "inmate" ∷ "inner" ∷ "innocent" ∷ "input" ∷ "inquiry" ∷ "insane" ∷ "insect" ∷ "inside"
    ∷ "inspire" ∷ "install" ∷ "intact" ∷ "interest" ∷ "into" ∷ "invest" ∷ "invite" ∷ "involve"
    ∷ "iron" ∷ "island" ∷ "isolate" ∷ "issue" ∷ "item" ∷ "ivory" ∷ []

unfoldable pub j_words : List String
j_words =
    "jacket" ∷ "jaguar" ∷ "jar" ∷ "jazz" ∷ "jealous" ∷ "jeans" ∷ "jelly" ∷ "jewel" ∷ "job" ∷ "join"
    ∷ "joke" ∷ "journey" ∷ "joy" ∷ "judge" ∷ "juice" ∷ "jump" ∷ "jungle" ∷ "junior" ∷ "junk"
    ∷ "just" ∷ []

unfoldable pub k_words : List String
k_words =
    "kangaroo" ∷ "keen" ∷ "keep" ∷ "ketchup" ∷ "key" ∷ "kick" ∷ "kid" ∷ "kidney" ∷ "kind"
    ∷ "kingdom" ∷ "kiss" ∷ "kit" ∷ "kitchen" ∷ "kite" ∷ "kitten" ∷ "kiwi" ∷ "knee" ∷ "knife"
    ∷ "knock" ∷ "know" ∷ []

unfoldable pub l_words : List String
l_words =
    "lab" ∷ "label" ∷ "labor" ∷ "ladder" ∷ "lady" ∷ "lake" ∷ "lamp" ∷ "language" ∷ "laptop"
    ∷ "large" ∷ "later" ∷ "latin" ∷ "laugh" ∷ "laundry" ∷ "lava" ∷ "law" ∷ "lawn" ∷ "lawsuit"
    ∷ "layer" ∷ "lazy" ∷ "leader" ∷ "leaf" ∷ "learn" ∷ "leave" ∷ "lecture" ∷ "left" ∷ "leg"
    ∷ "legal" ∷ "legend" ∷ "leisure" ∷ "lemon" ∷ "lend" ∷ "length" ∷ "lens" ∷ "leopard" ∷ "lesson"
    ∷ "letter" ∷ "level" ∷ "liar" ∷ "liberty" ∷ "library" ∷ "license" ∷ "life" ∷ "lift" ∷ "light"
    ∷ "like" ∷ "limb" ∷ "limit" ∷ "link" ∷ "lion" ∷ "liquid" ∷ "list" ∷ "little" ∷ "live" ∷ "lizard"
    ∷ "load" ∷ "loan" ∷ "lobster" ∷ "local" ∷ "lock" ∷ "logic" ∷ "lonely" ∷ "long" ∷ "loop"
    ∷ "lottery" ∷ "loud" ∷ "lounge" ∷ "love" ∷ "loyal" ∷ "lucky" ∷ "luggage" ∷ "lumber" ∷ "lunar"
    ∷ "lunch" ∷ "luxury" ∷ "lyrics" ∷ []

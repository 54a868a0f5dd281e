-- ===== src/Dictionary/En/MtoP.antt =====
-- src/dictionary_en.cpp: the words that begin with m, n, o, p, in the order of the array.
use Prim.Native.String.{String}
use cscrypto.Base.{List, [], ◌∷◌}

unfoldable pub m_words : List String
m_words =
    "machine" ∷ "mad" ∷ "magic" ∷ "magnet" ∷ "maid" ∷ "mail" ∷ "main" ∷ "major" ∷ "make" ∷ "mammal"
    ∷ "man" ∷ "manage" ∷ "mandate" ∷ "mango" ∷ "mansion" ∷ "manual" ∷ "maple" ∷ "marble" ∷ "march"
    ∷ "margin" ∷ "marine" ∷ "market" ∷ "marriage" ∷ "mask" ∷ "mass" ∷ "master" ∷ "match"
    ∷ "material" ∷ "math" ∷ "matrix" ∷ "matter" ∷ "maximum" ∷ "maze" ∷ "meadow" ∷ "mean" ∷ "measure"
    ∷ "meat" ∷ "mechanic" ∷ "medal" ∷ "media" ∷ "melody" ∷ "melt" ∷ "member" ∷ "memory" ∷ "mention"
    ∷ "menu" ∷ "mercy" ∷ "merge" ∷ "merit" ∷ "merry" ∷ "mesh" ∷ "message" ∷ "metal" ∷ "method"
    ∷ "middle" ∷ "midnight" ∷ "milk" ∷ "million" ∷ "mimic" ∷ "mind" ∷ "minimum" ∷ "minor" ∷ "minute"
    ∷ "miracle" ∷ "mirror" ∷ "misery" ∷ "miss" ∷ "mistake" ∷ "mix" ∷ "mixed" ∷ "mixture" ∷ "mobile"
    ∷ "model" ∷ "modify" ∷ "mom" ∷ "moment" ∷ "monitor" ∷ "monkey" ∷ "monster" ∷ "month" ∷ "moon"
    ∷ "moral" ∷ "more" ∷ "morning" ∷ "mosquito" ∷ "mother" ∷ "motion" ∷ "motor" ∷ "mountain"
    ∷ "mouse" ∷ "move" ∷ "movie" ∷ "much" ∷ "muffin" ∷ "mule" ∷ "multiply" ∷ "muscle" ∷ "museum"
    ∷ "mushroom" ∷ "music" ∷ "must" ∷ "mutual" ∷ "myself" ∷ "mystery" ∷ "myth" ∷ []

unfoldable pub n_words : List String
n_words =
    "naive" ∷ "name" ∷ "napkin" ∷ "narrow" ∷ "nasty" ∷ "nation" ∷ "nature" ∷ "near" ∷ "neck"
    ∷ "need" ∷ "negative" ∷ "neglect" ∷ "neither" ∷ "nephew" ∷ "nerve" ∷ "nest" ∷ "net" ∷ "network"
    ∷ "neutral" ∷ "never" ∷ "news" ∷ "next" ∷ "nice" ∷ "night" ∷ "noble" ∷ "noise" ∷ "nominee"
    ∷ "noodle" ∷ "normal" ∷ "north" ∷ "nose" ∷ "notable" ∷ "note" ∷ "nothing" ∷ "notice" ∷ "novel"
    ∷ "now" ∷ "nuclear" ∷ "number" ∷ "nurse" ∷ "nut" ∷ []

unfoldable pub o_words : List String
o_words =
    "oak" ∷ "obey" ∷ "object" ∷ "oblige" ∷ "obscure" ∷ "observe" ∷ "obtain" ∷ "obvious" ∷ "occur"
    ∷ "ocean" ∷ "october" ∷ "odor" ∷ "off" ∷ "offer" ∷ "office" ∷ "often" ∷ "oil" ∷ "okay" ∷ "old"
    ∷ "olive" ∷ "olympic" ∷ "omit" ∷ "once" ∷ "one" ∷ "onion" ∷ "online" ∷ "only" ∷ "open" ∷ "opera"
    ∷ "opinion" ∷ "oppose" ∷ "option" ∷ "orange" ∷ "orbit" ∷ "orchard" ∷ "order" ∷ "ordinary"
    ∷ "organ" ∷ "orient" ∷ "original" ∷ "orphan" ∷ "ostrich" ∷ "other" ∷ "outdoor" ∷ "outer"
    ∷ "output" ∷ "outside" ∷ "oval" ∷ "oven" ∷ "over" ∷ "own" ∷ "owner" ∷ "oxygen" ∷ "oyster"
    ∷ "ozone" ∷ []

unfoldable pub p_words : List String
p_words =
    "pact" ∷ "paddle" ∷ "page" ∷ "pair" ∷ "palace" ∷ "palm" ∷ "panda" ∷ "panel" ∷ "panic"
    ∷ "panther" ∷ "paper" ∷ "parade" ∷ "parent" ∷ "park" ∷ "parrot" ∷ "party" ∷ "pass" ∷ "patch"
    ∷ "path" ∷ "patient" ∷ "patrol" ∷ "pattern" ∷ "pause" ∷ "pave" ∷ "payment" ∷ "peace" ∷ "peanut"
    ∷ "pear" ∷ "peasant" ∷ "pelican" ∷ "pen" ∷ "penalty" ∷ "pencil" ∷ "people" ∷ "pepper"
    ∷ "perfect" ∷ "permit" ∷ "person" ∷ "pet" ∷ "phone" ∷ "photo" ∷ "phrase" ∷ "physical" ∷ "piano"
    ∷ "picnic" ∷ "picture" ∷ "piece" ∷ "pig" ∷ "pigeon" ∷ "pill" ∷ "pilot" ∷ "pink" ∷ "pioneer"
    ∷ "pipe" ∷ "pistol" ∷ "pitch" ∷ "pizza" ∷ "place" ∷ "planet" ∷ "plastic" ∷ "plate" ∷ "play"
    ∷ "please" ∷ "pledge" ∷ "pluck" ∷ "plug" ∷ "plunge" ∷ "poem" ∷ "poet" ∷ "point" ∷ "polar"
    ∷ "pole" ∷ "police" ∷ "pond" ∷ "pony" ∷ "pool" ∷ "popular" ∷ "portion" ∷ "position" ∷ "possible"
    ∷ "post" ∷ "potato" ∷ "pottery" ∷ "poverty" ∷ "powder" ∷ "power" ∷ "practice" ∷ "praise"
    ∷ "predict" ∷ "prefer" ∷ "prepare" ∷ "present" ∷ "pretty" ∷ "prevent" ∷ "price" ∷ "pride"
    ∷ "primary" ∷ "print" ∷ "priority" ∷ "prison" ∷ "private" ∷ "prize" ∷ "problem" ∷ "process"
    ∷ "produce" ∷ "profit" ∷ "program" ∷ "project" ∷ "promote" ∷ "proof" ∷ "property" ∷ "prosper"
    ∷ "protect" ∷ "proud" ∷ "provide" ∷ "public" ∷ "pudding" ∷ "pull" ∷ "pulp" ∷ "pulse" ∷ "pumpkin"
    ∷ "punch" ∷ "pupil" ∷ "puppy" ∷ "purchase" ∷ "purity" ∷ "purpose" ∷ "purse" ∷ "push" ∷ "put"
    ∷ "puzzle" ∷ "pyramid" ∷ []

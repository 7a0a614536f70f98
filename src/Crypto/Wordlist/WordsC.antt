-- ===== src/Crypto/Wordlist/WordsC.antt =====
-- The words 1024 to 1535 of crypto/src/wordlist.rs.
use little_love.Prelude.{String, List, [], ◌∷◌}

abbrev pub words_4 : List String
words_4 =
    "length" ∷ "lens" ∷ "leopard" ∷ "lesson" ∷ "letter" ∷ "level" ∷ "liar" ∷ "liberty" ∷ "library"
    ∷ "license" ∷ "life" ∷ "lift" ∷ "light" ∷ "like" ∷ "limb" ∷ "limit" ∷ "link" ∷ "lion" ∷ "liquid"
    ∷ "list" ∷ "little" ∷ "live" ∷ "lizard" ∷ "load" ∷ "loan" ∷ "lobster" ∷ "local" ∷ "lock"
    ∷ "logic" ∷ "lonely" ∷ "long" ∷ "loop" ∷ "lottery" ∷ "loud" ∷ "lounge" ∷ "love" ∷ "loyal"
    ∷ "lucky" ∷ "luggage" ∷ "lumber" ∷ "lunar" ∷ "lunch" ∷ "luxury" ∷ "lyrics" ∷ "machine" ∷ "mad"
    ∷ "magic" ∷ "magnet" ∷ "maid" ∷ "mail" ∷ "main" ∷ "major" ∷ "make" ∷ "mammal" ∷ "man" ∷ "manage"
    ∷ "mandate" ∷ "mango" ∷ "mansion" ∷ "manual" ∷ "maple" ∷ "marble" ∷ "march" ∷ "margin"
    ∷ "marine" ∷ "market" ∷ "marriage" ∷ "mask" ∷ "mass" ∷ "master" ∷ "match" ∷ "material" ∷ "math"
    ∷ "matrix" ∷ "matter" ∷ "maximum" ∷ "maze" ∷ "meadow" ∷ "mean" ∷ "measure" ∷ "meat" ∷ "mechanic"
    ∷ "medal" ∷ "media" ∷ "melody" ∷ "melt" ∷ "member" ∷ "memory" ∷ "mention" ∷ "menu" ∷ "mercy"
    ∷ "merge" ∷ "merit" ∷ "merry" ∷ "mesh" ∷ "message" ∷ "metal" ∷ "method" ∷ "middle" ∷ "midnight"
    ∷ "milk" ∷ "million" ∷ "mimic" ∷ "mind" ∷ "minimum" ∷ "minor" ∷ "minute" ∷ "miracle" ∷ "mirror"
    ∷ "misery" ∷ "miss" ∷ "mistake" ∷ "mix" ∷ "mixed" ∷ "mixture" ∷ "mobile" ∷ "model" ∷ "modify"
    ∷ "mom" ∷ "moment" ∷ "monitor" ∷ "monkey" ∷ "monster" ∷ "month" ∷ "moon" ∷ "moral" ∷ "more"
    ∷ "morning" ∷ "mosquito" ∷ "mother" ∷ "motion" ∷ "motor" ∷ "mountain" ∷ "mouse" ∷ "move"
    ∷ "movie" ∷ "much" ∷ "muffin" ∷ "mule" ∷ "multiply" ∷ "muscle" ∷ "museum" ∷ "mushroom" ∷ "music"
    ∷ "must" ∷ "mutual" ∷ "myself" ∷ "mystery" ∷ "myth" ∷ "naive" ∷ "name" ∷ "napkin" ∷ "narrow"
    ∷ "nasty" ∷ "nation" ∷ "nature" ∷ "near" ∷ "neck" ∷ "need" ∷ "negative" ∷ "neglect" ∷ "neither"
    ∷ "nephew" ∷ "nerve" ∷ "nest" ∷ "net" ∷ "network" ∷ "neutral" ∷ "never" ∷ "news" ∷ "next"
    ∷ "nice" ∷ "night" ∷ "noble" ∷ "noise" ∷ "nominee" ∷ "noodle" ∷ "normal" ∷ "north" ∷ "nose"
    ∷ "notable" ∷ "note" ∷ "nothing" ∷ "notice" ∷ "novel" ∷ "now" ∷ "nuclear" ∷ "number" ∷ "nurse"
    ∷ "nut" ∷ "oak" ∷ "obey" ∷ "object" ∷ "oblige" ∷ "obscure" ∷ "observe" ∷ "obtain" ∷ "obvious"
    ∷ "occur" ∷ "ocean" ∷ "october" ∷ "odor" ∷ "off" ∷ "offer" ∷ "office" ∷ "often" ∷ "oil" ∷ "okay"
    ∷ "old" ∷ "olive" ∷ "olympic" ∷ "omit" ∷ "once" ∷ "one" ∷ "onion" ∷ "online" ∷ "only" ∷ "open"
    ∷ "opera" ∷ "opinion" ∷ "oppose" ∷ "option" ∷ "orange" ∷ "orbit" ∷ "orchard" ∷ "order"
    ∷ "ordinary" ∷ "organ" ∷ "orient" ∷ "original" ∷ "orphan" ∷ "ostrich" ∷ "other" ∷ "outdoor"
    ∷ "outer" ∷ "output" ∷ "outside" ∷ "oval" ∷ "oven" ∷ "over" ∷ "own" ∷ "owner" ∷ "oxygen"
    ∷ "oyster" ∷ "ozone" ∷ "pact" ∷ "paddle" ∷ "page" ∷ "pair" ∷ "palace" ∷ "palm" ∷ "panda"
    ∷ "panel" ∷ "panic" ∷ "panther" ∷ "paper" ∷ []

abbrev pub words_5 : List String
words_5 =
    "parade" ∷ "parent" ∷ "park" ∷ "parrot" ∷ "party" ∷ "pass" ∷ "patch" ∷ "path" ∷ "patient"
    ∷ "patrol" ∷ "pattern" ∷ "pause" ∷ "pave" ∷ "payment" ∷ "peace" ∷ "peanut" ∷ "pear" ∷ "peasant"
    ∷ "pelican" ∷ "pen" ∷ "penalty" ∷ "pencil" ∷ "people" ∷ "pepper" ∷ "perfect" ∷ "permit"
    ∷ "person" ∷ "pet" ∷ "phone" ∷ "photo" ∷ "phrase" ∷ "physical" ∷ "piano" ∷ "picnic" ∷ "picture"
    ∷ "piece" ∷ "pig" ∷ "pigeon" ∷ "pill" ∷ "pilot" ∷ "pink" ∷ "pioneer" ∷ "pipe" ∷ "pistol"
    ∷ "pitch" ∷ "pizza" ∷ "place" ∷ "planet" ∷ "plastic" ∷ "plate" ∷ "play" ∷ "please" ∷ "pledge"
    ∷ "pluck" ∷ "plug" ∷ "plunge" ∷ "poem" ∷ "poet" ∷ "point" ∷ "polar" ∷ "pole" ∷ "police" ∷ "pond"
    ∷ "pony" ∷ "pool" ∷ "popular" ∷ "portion" ∷ "position" ∷ "possible" ∷ "post" ∷ "potato"
    ∷ "pottery" ∷ "poverty" ∷ "powder" ∷ "power" ∷ "practice" ∷ "praise" ∷ "predict" ∷ "prefer"
    ∷ "prepare" ∷ "present" ∷ "pretty" ∷ "prevent" ∷ "price" ∷ "pride" ∷ "primary" ∷ "print"
    ∷ "priority" ∷ "prison" ∷ "private" ∷ "prize" ∷ "problem" ∷ "process" ∷ "produce" ∷ "profit"
    ∷ "program" ∷ "project" ∷ "promote" ∷ "proof" ∷ "property" ∷ "prosper" ∷ "protect" ∷ "proud"
    ∷ "provide" ∷ "public" ∷ "pudding" ∷ "pull" ∷ "pulp" ∷ "pulse" ∷ "pumpkin" ∷ "punch" ∷ "pupil"
    ∷ "puppy" ∷ "purchase" ∷ "purity" ∷ "purpose" ∷ "purse" ∷ "push" ∷ "put" ∷ "puzzle" ∷ "pyramid"
    ∷ "quality" ∷ "quantum" ∷ "quarter" ∷ "question" ∷ "quick" ∷ "quit" ∷ "quiz" ∷ "quote"
    ∷ "rabbit" ∷ "raccoon" ∷ "race" ∷ "rack" ∷ "radar" ∷ "radio" ∷ "rail" ∷ "rain" ∷ "raise"
    ∷ "rally" ∷ "ramp" ∷ "ranch" ∷ "random" ∷ "range" ∷ "rapid" ∷ "rare" ∷ "rate" ∷ "rather"
    ∷ "raven" ∷ "raw" ∷ "razor" ∷ "ready" ∷ "real" ∷ "reason" ∷ "rebel" ∷ "rebuild" ∷ "recall"
    ∷ "receive" ∷ "recipe" ∷ "record" ∷ "recycle" ∷ "reduce" ∷ "reflect" ∷ "reform" ∷ "refuse"
    ∷ "region" ∷ "regret" ∷ "regular" ∷ "reject" ∷ "relax" ∷ "release" ∷ "relief" ∷ "rely"
    ∷ "remain" ∷ "remember" ∷ "remind" ∷ "remove" ∷ "render" ∷ "renew" ∷ "rent" ∷ "reopen"
    ∷ "repair" ∷ "repeat" ∷ "replace" ∷ "report" ∷ "require" ∷ "rescue" ∷ "resemble" ∷ "resist"
    ∷ "resource" ∷ "response" ∷ "result" ∷ "retire" ∷ "retreat" ∷ "return" ∷ "reunion" ∷ "reveal"
    ∷ "review" ∷ "reward" ∷ "rhythm" ∷ "rib" ∷ "ribbon" ∷ "rice" ∷ "rich" ∷ "ride" ∷ "ridge"
    ∷ "rifle" ∷ "right" ∷ "rigid" ∷ "ring" ∷ "riot" ∷ "ripple" ∷ "risk" ∷ "ritual" ∷ "rival"
    ∷ "river" ∷ "road" ∷ "roast" ∷ "robot" ∷ "robust" ∷ "rocket" ∷ "romance" ∷ "roof" ∷ "rookie"
    ∷ "room" ∷ "rose" ∷ "rotate" ∷ "rough" ∷ "round" ∷ "route" ∷ "royal" ∷ "rubber" ∷ "rude" ∷ "rug"
    ∷ "rule" ∷ "run" ∷ "runway" ∷ "rural" ∷ "sad" ∷ "saddle" ∷ "sadness" ∷ "safe" ∷ "sail" ∷ "salad"
    ∷ "salmon" ∷ "salon" ∷ "salt" ∷ "salute" ∷ "same" ∷ "sample" ∷ "sand" ∷ "satisfy" ∷ "satoshi"
    ∷ "sauce" ∷ "sausage" ∷ "save" ∷ "say" ∷ []

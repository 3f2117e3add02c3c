-- ===== src/Scripts/SeedTables.antt =====
-- The tables that scripts/seed_data.py draws jobs from.
use ishly_back.Prelude.{ℕ, String, List, [], ◌∷◌}
use ishly_back.Data.Jobs.{JobStatus}

pub record Template : Type 0 where
  pub title : String
  pub slug : String
  pub description : String

abbrev template : String → String → String → Template
template title slug description = record { title = title; slug = slug; description = description }

abbrev pub first_template : Template
first_template =
    template "Deep apartment cleaning needed" "cleaning"
      "Need thorough cleaning of 3-room apartment, including windows, bathrooms and kitchen. Cleaning supplies provided."

-- `JOB_TEMPLATES` is this one and these.
abbrev pub other_templates : List Template
other_templates =
    template "Grocery delivery from Korzinka" "delivery"
      "Need groceries delivered from Korzinka supermarket on Amir Temur Ave. List will be provided."
    ∷ template "Help moving furniture" "moving"
        "Moving a 2-room apartment worth of furniture. 3rd floor, no elevator. Truck available."
    ∷ template "Fix leaking faucet" "repair"
        "Kitchen faucet dripping constantly. Need certified plumber."
    ∷ template "Assemble IKEA wardrobe" "assembly"
        "Large PAX wardrobe (200x58x236cm). All parts and tools provided."
    ∷ template "Lawn mowing and hedge trimming" "gardening"
        "Medium-sized garden. Mowing, trimming, leaf removal. Tools available."
    ∷ template "Paint living room walls" "painting"
        "Living room ~25 sqm. White paint provided. Need to cover old wallpaper."
    ∷ template "Set up home network" "it-help"
        "Install router, connect 4 devices, set up Wi-Fi extender."
    ∷ template "Night security guard (10pm–6am)" "security"
        "One-night coverage for private event. Must have valid security license."
    ∷ template "Cook traditional Uzbek plov" "cooking"
        "Cook plov for 30 guests. Ingredients provided. Wedding event."
    ∷ []

-- The addresses of `TASHKENT_LOCATIONS`, after the first
abbrev pub other_addresses : List String
other_addresses =
    "Chilonzor, Tashkent" ∷ "Sergeli, Tashkent" ∷ "Mirzo Ulugbek, Tashkent"
    ∷ "Shaykhontohur, Tashkent" ∷ "Uchtepa, Tashkent" ∷ "Yakkasaray, Tashkent"
    ∷ "Bektemir, Tashkent" ∷ "Almazar, Tashkent" ∷ "Olmazor, Tashkent" ∷ []

-- The prices after the first one, which is 5000 sum, in tiyin
abbrev pub other_prices : List ℕ
other_prices =
    1_000_000 ∷ 1_500_000 ∷ 2_000_000 ∷ 3_000_000 ∷ 5_000_000 ∷ 7_500_000 ∷ 10_000_000 ∷ 15_000_000
    ∷ 20_000_000 ∷ []

-- The states after the first one, which is CREATED; open jobs are more likely.
abbrev pub other_statuses : List JobStatus
other_statuses =
    JobStatus.created ∷ JobStatus.created ∷ JobStatus.accepted ∷ JobStatus.in_progress
    ∷ JobStatus.completed ∷ JobStatus.cancelled ∷ []

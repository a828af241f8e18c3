-- ===== src/CrossOrigin/Fetch.antt =====
-- The Sec-Fetch headers of a request, `secFetchHeaders` of app/src/origin.ts, against a description of
-- what a browser says.
use zeolite.Prelude.{◌≡◌, ◌⊎◌, Bool, true, false, Option, none, some, [], text_eq}
use zeolite.Text.{Text, txt, to_lower}
use zeolite.Url.{Url}
use zeolite.CrossOrigin.{Site, no_site, SecFetchHeaderSet}
use zeolite.CrossOrigin.Initiator.{IsPaged, IsSite}

-- No page on the web makes the request, or its address is not on the web.
unfoldable pub IsUnpaged : (Text → Option Url) → Option Text → Text → Type 0
IsUnpaged parse_url initiator target =
    (from to : Url) → ¬ IsPaged parse_url initiator target from to

-- The site that is known of the request: that of its page and its address, or none.
unfoldable pub IsKnown : (Text → Option Url) → Option Text → Text → Option Site → Type 0
IsKnown parse_url initiator target known =
    (IsUnpaged parse_url initiator target × (known ≡ none))
    ⊎ ((from : Url) × (to : Url) × (site : Site) × IsPaged parse_url initiator target from to
        × IsSite from to site
        × (known ≡ some site))

-- The destination in lower case; an empty one is named `empty`.
abbrev pub IsDest : Text → Text → Type 0
IsDest destination dest =
    ((destination ≡ []) × (dest ≡ txt "empty"))
    ⊎ ((¬ (destination ≡ [])) × (dest ≡ to_lower destination))

-- A navigation by a user, which no page is known to make: of a document, from no site.
unfoldable pub IsUserNavigation : SecFetchHeaderSet → Type 0
IsUserNavigation h =
    (h.user ≡ true)
    × (h.upgrade ≡ true)
    × (h.site ≡ some no_site)
    × (h.mode ≡ txt "navigate")
    × (h.dest ≡ txt "document")

-- A navigation by a page: of a document in the main surface and where no destination is named, and else
-- of the destination.
unfoldable pub IsPageNavigation : Text → Bool → SecFetchHeaderSet → Type 0
IsPageNavigation destination main_surface h =
    (h.user ≡ false)
    × (h.upgrade ≡ true)
    × (h.mode ≡ txt "navigate")
    × (((h.dest ≡ txt "document") × ((main_surface ≡ true) ⊎ IsDest destination (txt "empty")))
        ⊎ ((main_surface ≡ false) × IsDest destination h.dest × (¬ (h.dest ≡ txt "empty"))))

-- Any other request.
unfoldable pub IsSubresource : Text → Text → SecFetchHeaderSet → Type 0
IsSubresource mode destination h =
    (h.user ≡ false) × (h.upgrade ≡ false) × (h.mode ≡ mode) × IsDest destination h.dest

-- What a browser says of a request that the site is known of.
unfoldable pub IsSaid : Option Site → Text → Text → Bool → SecFetchHeaderSet → Type 0
IsSaid known mode destination main_surface h =
    ((mode ≡ txt "navigate") × (known ≡ none) × IsUserNavigation h)
    ⊎ (((mode ≡ txt "navigate")
          × ((s : Site) × (known ≡ some s) × (h.site ≡ some s))
          × IsPageNavigation destination main_surface h)
        ⊎ ((¬ (mode ≡ txt "navigate")) × (h.site ≡ known) × IsSubresource mode destination h))

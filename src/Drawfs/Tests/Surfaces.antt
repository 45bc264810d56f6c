-- ===== src/Drawfs/Tests/Surfaces.antt =====
-- Surfaces of a session that is bound to display 1.
use awase.Base.{◌≡◌, refl, [], ◌∷◌, arith, some}
use awase.Drawfs.Session.{Session, Surface, State, Kernel, TunablesFit, open_session}
use awase.Drawfs.Surface.{new_surface, create, destroy}
use awase.Drawfs.Surface.Accounting.{SurfaceInv, surface_calls-SurfaceInv}
use awase.Drawfs.Surface.Lifetime.{Destroys, destroy_cases}
use awase.Drawfs.Tests.Queues.{limits}

abbrev pub limits-fit : TunablesFit limits
limits-fit = omega arith

abbrev pub idle : Kernel
idle = record {
  vmobj_allocs = 0;
  vmobj_deallocs = 0;
  vmobj_install_lost = 0;
  inbuf_grow_race_lost = 0;
  frame_extract_race_lost = 0;
  vm_calls = [];
}

abbrev bound : Session
bound = record open_session { active_display_id = 1; active_display_handle = 1 }

-- One surface of 2 by 3 pixels with a backing object.
abbrev pub one_surface : Surface
one_surface = record {
  id = 1;
  width_px = 2;
  height_px = 3;
  format = 1;
  stride_bytes = 8;
  bytes_total = 24;
  vmobj = some 77;
}

abbrev pub holding : State
holding = record {
  session = record bound {
    surfaces = one_surface ∷ [];
    next_surface_id = 2;
    surfaces_count = 1;
    surfaces_bytes = 24;
    map_surface_id = 1;
  };
  kernel = idle;
}

holding-SurfaceInv : SurfaceInv limits holding.session
holding-SurfaceInv = record {
  accounts = record {
    count_exact = refl;
    bytes_exact = refl;
    count_bounded = omega arith;
    bytes_bounded = omega arith;
  };
  ids_fresh = omega arith;
}

creates :
    (create limits holding.session 4 2 1).0
    ≡ record { error = 0; surface_id = 2; stride_bytes = 16; bytes_total = 32 }
unfolding create new_surface open_session
creates = refl

surface_calls-SurfaceInv_example :
    SurfaceInv limits (create limits holding.session 4 2 1).1
    × SurfaceInv limits (destroy holding 1).1.session
unfolding open_session
surface_calls-SurfaceInv_example =
    surface_calls-SurfaceInv limits holding 4 2 1 1 limits-fit (omega arith) (omega arith)
      holding-SurfaceInv

destroy_cases_example : Destroys holding 1 (destroy holding 1).0 (destroy holding 1).1
destroy_cases_example = destroy_cases limits holding 1 holding-SurfaceInv

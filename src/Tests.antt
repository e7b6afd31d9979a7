-- ===== src/Tests.antt =====
-- Runs of the drivers at concrete inputs.
mod Data
mod GpioRuns
mod BusRuns
mod InterruptRuns
mod ClockRuns
mod IrqRuns
mod SpiRuns
mod LibcRuns
mod ConsoleRuns
mod BootRuns
mod TransportRuns
mod MappingRuns
mod OverlayRuns
mod DevicesRuns
